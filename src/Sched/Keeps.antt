-- ===== src/Sched/Keeps.antt =====
-- The single operations on the table, and the invariant.
use os.Base.{
  ℕ, zero, suc, ◌+◌, ◌^◌, ◌<◌, ◌≤◌, ◌≡◌, refl, inl, inr, Bool, true, false, Option, none, some,
  arith, ◌==◌, get_elem?, modify, find_index, subst, All-get, Option-cases, Bool-cases, ℤ, pos,
  negsuc,
}
use os.Sched.Defs.{Proc, System, Chan, is_unused, is_zombie, is_running, slot}
use os.Sched.Ops.{
  same_slot, allocproc, inherit, fork, schedule, pick_next, total_weight, setnice, invalid_nice,
  nice_of,
}
use os.Sched.Sleep.{
  wake_base, wake_one, wakeup1, kill, yield, sleep, after_sleep, adopt, reparent, parent_chan,
  become_zombie, exit, Waited, returns, sleeps, cleared, wait, Scan, reap, kids, alone, wait_scan,
  after_scan,
}
use os.Sched.Timer.{charge, ticks_chan, yield_if_running, timer_rest, timer_trap}
use os.Sched.Valid.{IsOk, IsValid, IsTame, plain, modify-IsValid, map-IsValid, fresh-IsValid}

abbrev pub after_wait : Waited → System
after_wait (returns r s) = s
after_wait (sleeps s) = s

pub allocproc-IsValid :
    (page : ℕ) (s : System) → IsValid s → s.next_pid + 1 < 2 ^ 31 → IsValid (allocproc page s).1
unfolding allocproc
allocproc-IsValid page s v room =
    elim (Option-cases (find_index (λ p. is_unused p.state) s.procs)) [
      | inl e ↦ rw (e, allocproc) v
      | inr (i, e) ↦
          rw (e, allocproc)
            (elim (Bool-cases (page == 0)) [
              | inl z ↦
                  rw z
                    (modify-IsValid (plain _ (λ p. (refl, refl))) _ i _ (fresh-IsValid s i v room))
              | inr z ↦
                  rw z
                    (modify-IsValid (plain _ (λ p. (refl, refl))) _ i _ (fresh-IsValid s i v room))
            ])
    ]

-- A child inherits a `nice` value that is in the table.
inherit-IsTame : (me pgdir : ℕ) (cur : Proc) → cur.nice ≤ 39 → IsTame (inherit me pgdir cur)
inherit-IsTame me pgdir cur h = record { nice_kept = λ p n. h; pid_kept = λ p. inl refl }

pub fork-IsValid :
    (page pgdir me : ℕ) (s : System)
    → IsValid s
    → s.next_pid + 1 < 2 ^ 31
    → IsValid (fork page pgdir me s).1
unfolding fork
fork-IsValid page pgdir me s v room = elim (Option-cases (get_elem? s.procs me)) [
  | inl e ↦ rw (e, fork) v
  | inr (cur, e) ↦
      rw (e, fork)
        (elim (Option-cases (allocproc page s).0) [
          | inl f ↦ rw f (allocproc-IsValid page s v room)
          | inr (i, f) ↦ rw f (elim (Bool-cases (pgdir == 0)) [
            | inl z ↦ rw z (
                modify-IsValid (plain _ (λ p. (refl, refl))) _ i _
                  (allocproc-IsValid page s v room))
            | inr z ↦ rw z (
                modify-IsValid
                  (inherit-IsTame me pgdir cur
                    (All-get (IsOk s.next_pid) s.procs me cur e v.each).0)
                  _ i _ (allocproc-IsValid page s v room))
          ])
        ])
]

current-IsValid : (s : System) (c : Option ℕ) → IsValid s → IsValid (record s { current = c })
current-IsValid s c v = record { each = v.each; distinct = v.distinct }

pub schedule-IsValid : (s : System) → IsValid s → IsValid (schedule s)
unfolding schedule
schedule-IsValid s v = elim (Bool-cases (total_weight s.procs == 0)) [
  | inl z ↦ rw z (current-IsValid s none v)
  | inr z ↦ rw z (elim (Option-cases (pick_next s.procs)) [
    | inl e ↦ rw (e, schedule) (current-IsValid s none v)
    | inr (i, e) ↦ rw (e, schedule) (modify-IsValid (plain _ (λ p. (refl, refl))) s i (some i) v)
  ])
]

pub wakeup1-IsValid : (c : Chan) (s : System) → IsValid s → IsValid (wakeup1 c s)
unfolding wakeup1
wakeup1-IsValid c s v = map-IsValid (plain (wake_one (wake_base s.procs) c) (λ p. ground arith)) s v

pub kill-IsValid : (pid : ℕ) (s : System) → IsValid s → IsValid (kill pid s).1
unfolding kill
kill-IsValid pid s v = elim (Option-cases (find_index (λ p. p.pid == pid) s.procs)) [
  | inl e ↦ rw (e, kill) v
  | inr (i, e) ↦ rw (e, kill) (modify-IsValid (plain _ (λ p. (refl, refl))) s i s.current v)
]

pub yield-IsValid : (me : ℕ) (s : System) → IsValid s → IsValid (yield me s)
unfolding yield
yield-IsValid me s v = modify-IsValid (plain _ (λ p. (refl, refl))) s me none v

pub sleep-IsValid : (c : Chan) (me : ℕ) (s : System) → IsValid s → IsValid (sleep c me s)
unfolding sleep
sleep-IsValid c me s v = modify-IsValid (plain _ (λ p. (refl, refl))) s me none v

pub after_sleep-IsValid : (me : ℕ) (s : System) → IsValid s → IsValid (after_sleep me s)
unfolding after_sleep
after_sleep-IsValid me s v = modify-IsValid (plain _ (λ p. (refl, refl))) s me s.current v

nice_of_le : (value : ℤ) → invalid_nice value ≡ false → nice_of value ≤ 39
nice_of_le (pos n) h = ground arith
nice_of_le (negsuc n) h = omega arith

pub setnice-IsValid :
    (pid : ℕ) (value : ℤ) (s : System) → IsValid s → IsValid (setnice pid value s).1
unfolding setnice
setnice-IsValid pid value s v = elim (Bool-cases (invalid_nice value)) [
  | inl z ↦ rw z v
  | inr z ↦ rw z (elim (Option-cases (find_index (λ p. p.pid == pid) s.procs)) [
    | inl e ↦ rw (e, setnice) v
    | inr (i, e) ↦
        rw (e, setnice)
          (modify-IsValid
            (record { nice_kept = λ p h. nice_of_le value z; pid_kept = λ p. inl refl }) s i
            s.current v)
  ])
]

yield_if_running-IsValid : (me : ℕ) (s : System) → IsValid s → IsValid (yield_if_running me s)
unfolding yield_if_running
yield_if_running-IsValid me s v = elim (Option-cases (get_elem? s.procs me)) [
  | inl e ↦ rw (e, yield_if_running) v
  | inr (p, e) ↦
      rw (e, yield_if_running)
        (elim (Bool-cases (is_running p.state)) [
          | inl z ↦ rw z (yield-IsValid me s v)
          | inr z ↦ rw z v
        ])
]

pub timer_rest-IsValid :
    (cpu0 : Bool) (me : ℕ) (s : System) → IsValid s → IsValid (timer_rest cpu0 me s)
unfolding timer_rest
timer_rest-IsValid true me s v = yield_if_running-IsValid me _ (wakeup1-IsValid ticks_chan s v)
timer_rest-IsValid false me s v = yield_if_running-IsValid me s v

pub timer_trap-IsValid :
    (cpu0 : Bool) (me : ℕ) (s : System) → IsValid s → IsValid (timer_trap cpu0 me s)
unfolding timer_trap
timer_trap-IsValid cpu0 me s v = elim (Option-cases (get_elem? s.procs me)) [
  | inl e ↦ rw (e, timer_trap) v
  | inr (p, e) ↦
      rw (e, timer_trap)
        (elim (Bool-cases (is_running p.state)) [
          | inl z ↦ rw z (elim (Bool-cases ((charge p).time_slice == 0)) [
            | inl w ↦ rw w (yield-IsValid me _ charged)
            | inr w ↦ rw w (timer_rest-IsValid cpu0 me _ charged)
          ])
          | inr z ↦ rw z (timer_rest-IsValid cpu0 me s v)
        ])
]
  where
    charged : IsValid (record s { procs = modify s.procs me charge })
    charged = modify-IsValid (plain charge (λ p. (refl, refl))) s me s.current v

adopt-IsValid : (me i : ℕ) (p : Proc) (s : System) → IsValid s → IsValid (adopt me i p s)
unfolding adopt
adopt-IsValid me i p s v = elim (Bool-cases (same_slot p.parent me)) [
  | inl y ↦ rw y (elim (Bool-cases (is_zombie p.state)) [
    | inl z ↦ rw z (wakeup1-IsValid (slot s.init_proc) _ moved)
    | inr z ↦ rw z moved
  ])
  | inr y ↦ rw y v
]
  where
    moved :
        IsValid
          (record s { procs = modify s.procs i (λ q. record q { parent = some s.init_proc }) })
    moved = modify-IsValid (plain _ (λ q. (refl, refl))) s i s.current v

reparent-IsValid : (slots me i : ℕ) (s : System) → IsValid s → IsValid (reparent slots me i s)
unfolding reparent
reparent-IsValid zero me i s v = v
reparent-IsValid (suc n) me i s v = elim (Option-cases (get_elem? s.procs i)) [
  | inl e ↦ rw (e, reparent) v
  | inr (p, e) ↦
      rw (e, reparent) (reparent-IsValid n me (suc i) (adopt me i p s) (adopt-IsValid me i p s v))
]

pub exit-IsValid : (slots me : ℕ) (s t : System) → exit slots me s ≡ some t → IsValid s → IsValid t
unfolding exit
exit-IsValid slots me s t h v = elim (Option-cases (get_elem? s.procs me)) [
  | inl e ↦ ground arith
  | inr (p, e) ↦ subst IsValid (ended p e) (
      modify-IsValid (plain _ (λ q. (refl, refl))) _ me none
        (reparent-IsValid slots me 0 _ (wakeup1-IsValid (parent_chan p.parent) s v)))
]
  where
    ended :
        (p : Proc)
        → get_elem? s.procs me ≡ some p
        → become_zombie me (reparent slots me 0 (wakeup1 (parent_chan p.parent) s)) ≡ t
    ended p e = ground arith

cleared-IsTame : IsTame cleared
cleared-IsTame = record { nice_kept = λ p n. n; pid_kept = λ p. inr refl }

after_scan-IsValid :
    (me : ℕ) (cur : Proc) (s : System) (r : Scan)
    → IsValid s
    → IsValid (after_wait (after_scan me cur s r))
unfolding after_scan
after_scan-IsValid me cur s (reap i) v = elim (Option-cases (get_elem? s.procs i)) [
  | inl e ↦ rw (e, after_scan) v
  | inr (p, e) ↦ rw (e, after_scan) (modify-IsValid cleared-IsTame s i s.current v)
]
after_scan-IsValid me cur s kids v = elim (Bool-cases cur.killed) [
  | inl z ↦ rw z v
  | inr z ↦ rw z (sleep-IsValid (slot me) me s v)
]
after_scan-IsValid me cur s alone v = v

pub wait-IsValid : (me : ℕ) (s : System) → IsValid s → IsValid (after_wait (wait me s))
unfolding wait
wait-IsValid me s v = elim (Option-cases (get_elem? s.procs me)) [
  | inl e ↦ rw (e, wait) v
  | inr (cur, e) ↦ rw (e, wait) (after_scan-IsValid me cur s (wait_scan me s.procs 0 alone) v)
]
