-- ===== src/Sched/Calls.antt =====
-- What the system calls `setnice`, `getnice`, `kill`, `exit` and the timer interrupt promise.
use os.Base.{
  ℕ, ◌≡◌, refl, ◌∙◌, ◌⊎◌, inl, inr, Bool, true, false, Option, none, some, arith, ◌==◌, get_elem?,
  modify, find_index, get_elem?-modify_self, find_index-test, find_index-modify, Option-cases,
  Bool-cases, ℤ, pos, negsuc, minus_one,
}
use os.Sched.Defs.{Proc, System, runnable, is_running}
use os.Sched.Ops.{setnice, getnice, invalid_nice, nice_of}
use os.Sched.Sleep.{yield}
use os.Sched.Timer.{charge, yield_if_running, timer_rest, timer_trap, ticks_chan}
use os.Sched.Wakeups.{wakeup1_others}

-- Whether `pid` is that of an entry.
abbrev pub finds : ℕ → System → Option ℕ
finds pid s = find_index (λ p. p.pid == pid) s.procs

nice_of_back : (value : ℤ) → invalid_nice value ≡ false → pos (nice_of value) ≡ value
nice_of_back (pos n) h = refl
nice_of_back (negsuc n) h = cc

-- A `nice` value that `setnice` accepts is what `getnice` then returns, for the same process.
pub getnice-setnice :
    (pid : ℕ) (value : ℤ) (s : System)
    → (setnice pid value s).0 ≡ pos 0
    → getnice pid (setnice pid value s).1 ≡ value
unfolding setnice getnice
getnice-setnice pid value s h = elim (Bool-cases (invalid_nice value)) [
  | inl z ↦ absurd (refused z)
  | inr z ↦ elim (Option-cases (finds pid s)) [
    | inl e ↦ absurd (missing z e)
    | inr (i, e) ↦
        let (p, at, t) = find_index-test (λ p. p.pid == pid) s.procs i e in
        let written = λ (q : Proc). record q { nice = nice_of value } in
        rw (z, e, setnice)
          (rw
            (
              getnice,
              find_index-modify (λ p. p.pid == pid) s.procs i written (λ q. refl) ∙ e,
              get_elem?-modify_self s.procs i written at,
            )
            (nice_of_back value z))
  ]
]
  where
    refused : invalid_nice value ≡ true → ⊥
    refused z = ground arith

    missing : invalid_nice value ≡ false → finds pid s ≡ none → ⊥
    missing z e = ground arith

-- `setnice` fails exactly if the value is outside 0..39 or no process has the identifier, and then
-- changes nothing.
pub setnice_refused :
    (pid : ℕ) (value : ℤ) (s : System)
    → (invalid_nice value ≡ true) ⊎ (finds pid s ≡ none)
    → setnice pid value s ≡ (minus_one, s)
unfolding setnice
setnice_refused pid value s (inl z) = rw z
setnice_refused pid value s (inr e) = elim (Bool-cases (invalid_nice value)) [
  | inl z ↦ rw z
  | inr z ↦ rw (z, e)
]

yield-runnable :
    (me : ℕ) (s : System) (p : Proc)
    → get_elem? s.procs me ≡ some p
    → get_elem? (yield me s).procs me ≡ some (record p { state = runnable })
unfolding yield
yield-runnable me s p e = get_elem?-modify_self s.procs me _ e

yield_if_running-runnable :
    (me : ℕ) (s : System) (p : Proc)
    → get_elem? s.procs me ≡ some p
    → is_running p.state ≡ true
    → get_elem? (yield_if_running me s).procs me ≡ some (record p { state = runnable })
unfolding yield_if_running
yield_if_running-runnable me s p e h = rw (e, yield_if_running, h) (yield-runnable me s p e)

timer_rest-runnable :
    (cpu0 : Bool) (me : ℕ) (s : System) (p : Proc)
    → get_elem? s.procs me ≡ some p
    → is_running p.state ≡ true
    → get_elem? (timer_rest cpu0 me s).procs me ≡ some (record p { state = runnable })
unfolding timer_rest
timer_rest-runnable true me s p e h =
    yield_if_running-runnable me _ p (wakeup1_others ticks_chan s me p e (ground arith)) h
timer_rest-runnable false me s p e h = yield_if_running-runnable me s p e h

-- After a timer interrupt the process that ran is runnable and has been charged, whatever was left
-- of its time slice: it yields on every tick.
pub timer_trap_yields :
    (cpu0 : Bool) (me : ℕ) (s : System) (p : Proc)
    → get_elem? s.procs me ≡ some p
    → is_running p.state ≡ true
    → get_elem? (timer_trap cpu0 me s).procs me ≡ some (record (charge p) { state = runnable })
unfolding timer_trap
timer_trap_yields cpu0 me s p e h =
    rw (e, timer_trap, h)
      (elim (Bool-cases ((charge p).time_slice == 0)) [
        | inl z ↦ rw z (yield-runnable me charged (charge p) at)
        | inr z ↦ rw z (timer_rest-runnable cpu0 me charged (charge p) at h)
      ])
  where
    charged : System
    charged = record s { procs = modify s.procs me charge }

    at : get_elem? charged.procs me ≡ some (charge p)
    at = get_elem?-modify_self s.procs me charge e
