-- ===== src/Sched/Sleep.antt =====
-- Sleeping, waking, killing, exiting and waiting.
use os.Base.{
  ℕ, zero, suc, ◌-◌, ◌*◌, ◌/◌, Bool, true, false, ◌&&◌, Option, none, some, List, [], ◌∷◌, map,
  get_elem?, modify, find_index, ltb, ◌==◌, if◌then◌else◌, ℤ, pos, minus_one,
}
use os.Sched.Defs.{
  unused, sleeping, runnable, zombie, is_runnable, is_sleeping, is_zombie, Chan, null, slot,
  chan_eq, Proc, System, weight, ltb_int,
}
use os.Sched.Ops.{int_of, same_slot}

-- The first loop of `wakeup1`: whether a process is runnable, and the `vruntime` of the last one.
unfoldable pub last_runnable : List Proc → ℕ → Bool → ℕ × Bool
last_runnable [] m found = (m, found)
last_runnable (p ∷ ps) m found =
    last_runnable ps (if is_runnable p.state then p.vruntime else m)
      (if is_runnable p.state then true else found)

-- The second loop: the least `vruntime` of the runnable processes, from `m` down. C compares the
-- `int` with the `uint` as two words without sign.
unfoldable pub min_runnable : List Proc → ℕ → ℕ
min_runnable [] m = m
min_runnable (p ∷ ps) m =
    min_runnable ps
      (if is_runnable p.state then (if ltb p.vruntime m then p.vruntime else m) else m)

-- The word in `min_vrun` when the third loop starts.
unfoldable pub wake_base : List Proc → ℕ
unfolding last_runnable min_runnable
wake_base ps = let (m, found) = last_runnable ps 0 false in if found then min_runnable ps m else m

-- The body of the third loop.
unfoldable pub wake_one : ℕ → Chan → Proc → Proc
unfolding weight
wake_one base c p =
    if is_sleeping p.state && chan_eq p.chan c
    then record p {
      vruntime =
          if ltb_int base (1000 * 1024 / weight p.nice)
          then 0
          else base - 1000 * 1024 / weight p.nice;
      state = runnable;
    }
    else p

-- `wakeup1`, and `wakeup`, which only takes the lock for it.
unfoldable pub wakeup1 : Chan → System → System
unfolding wake_base wake_one
wakeup1 c s = record s { procs = map (wake_one (wake_base s.procs) c) s.procs }

-- `kill`
unfoldable pub kill : ℕ → System → ℤ × System
kill pid s = elim (find_index (λ p. p.pid == pid) s.procs) [
  | none ↦ (minus_one, s)
  | some i ↦ (
    pos 0,
    record s {
      procs = modify s.procs i (λ p. record p {
        killed = true;
        state = if is_sleeping p.state then runnable else p.state;
      });
    },
  )
]

-- `yield`, up to the switch to the scheduler, by the process in slot `me`.
unfoldable pub yield : ℕ → System → System
yield me s = record s {
  procs = modify s.procs me (λ p. record p { state = runnable });
  current = none;
}

-- `sleep`, up to the switch to the scheduler.
unfoldable pub sleep : Chan → ℕ → System → System
sleep c me s = record s {
  procs = modify s.procs me (λ p. record p { chan = c; state = sleeping });
  current = none;
}

-- What `sleep` does when the scheduler has switched back.
unfoldable pub after_sleep : ℕ → System → System
after_sleep me s = record s { procs = modify s.procs me (λ p. record p { chan = null }) }

-- The body of the loop of `exit` that passes the children in the slots to `initproc`, and wakes
-- that one up for each zombie among them; `p` is the process in slot `i`.
unfoldable pub adopt : (me i : ℕ) → Proc → System → System
unfolding wakeup1
adopt me i p s =
    if same_slot p.parent me
    then (let s' = record s {
      procs = modify s.procs i (λ q. record q { parent = some s.init_proc });
    } in
        if is_zombie p.state then wakeup1 (slot s.init_proc) s' else s')
    else s

-- The loop, from slot `i` on.
unfoldable pub reparent : (slots me i : ℕ) → System → System
unfolding adopt
reparent zero me i s = s
reparent (suc n) me i s = elim (get_elem? s.procs i) [
  | none ↦ s
  | some p ↦ reparent n me (suc i) (adopt me i p s)
]

-- The channel that is the parent of a process.
abbrev pub parent_chan : Option ℕ → Chan
parent_chan none = null
parent_chan (some i) = slot i

-- The last write of `exit`, and the switch to the scheduler.
abbrev pub become_zombie : ℕ → System → System
become_zombie me s = record s {
  procs = modify s.procs me (λ p. record p { state = zombie });
  current = none;
}

-- `exit` by the process in slot `me`, up to the switch to the scheduler; `none` is the panic.
-- The files and the directory that it closes first are not in this state.
unfoldable pub exit : (slots me : ℕ) → System → Option System
unfolding reparent wakeup1
exit slots me s = if me == s.init_proc then none else elim (get_elem? s.procs me) [
  | none ↦ none
  | some cur ↦ some (become_zombie me (reparent slots me 0 (wakeup1 (parent_chan cur.parent) s)))
]

-- What a round of `wait` finds: a child to reap, live children only, or none.
pub data Scan : Type 0 where
  reap : ℕ → Scan
  kids : Scan
  alone : Scan

unfoldable pub wait_scan : (me : ℕ) → List Proc → (i : ℕ) → Scan → Scan
wait_scan me [] i found = found
wait_scan me (p ∷ ps) i found =
    let rest = wait_scan me ps (suc i) (if same_slot p.parent me then kids else found) in
    if same_slot p.parent me && is_zombie p.state then reap i else rest

-- What `wait` clears in the slot of a reaped child.
abbrev pub cleared : Proc → Proc
cleared p = record p {
  kstack = 0;
  pid = 0;
  parent = none;
  name = 0 ∷ [];
  killed = false;
  state = unused;
}

-- How a round of `wait` ends: the system call returns, or the process sleeps and tries again.
pub data Waited : Type 0 where
  returns : ℤ → System → Waited
  sleeps : System → Waited

-- What `wait` does with the child that it found, and with a scan that found none to reap.
unfoldable pub after_scan : (me : ℕ) → Proc → System → Scan → Waited
unfolding sleep
after_scan me cur s (reap i) = elim (get_elem? s.procs i) [
  | none ↦ returns minus_one s
  | some p ↦ returns (int_of p.pid) (record s { procs = modify s.procs i cleared })
]
after_scan me cur s kids = if cur.killed then returns minus_one s else sleeps (sleep (slot me) me s)
after_scan me cur s alone = returns minus_one s

-- One round of the loop of `wait`.
unfoldable pub wait : (me : ℕ) → System → Waited
unfolding wait_scan after_scan
wait me s = elim (get_elem? s.procs me) [
  | none ↦ returns minus_one s
  | some cur ↦ after_scan me cur s (wait_scan me s.procs 0 alone)
]
