-- ===== src/Sched/Reach.antt =====
-- The operations of the table as steps, and the invariant in the states that they reach.
use os.Base.{
  ℕ, zero, suc, ◌+◌, ◌^◌, ◌<◌, ◌≡◌, refl, inl, inr, Bool, false, none, some, [], arith, modify,
  replicate, subst, All, Option-cases, ℤ,
}
use os.Sched.Defs.{Proc, System, Chan, unused, null}
use os.Sched.Ops.{allocproc, userinit, first_proc, fork, schedule, setnice}
use os.Sched.Sleep.{wakeup1, kill, yield, sleep, after_sleep, exit, wait}
use os.Sched.Timer.{timer_rest, timer_trap}
use os.Sched.Valid.{IsOk, Distinct, IsValid, plain, modify-IsValid}
use os.Sched.Keeps.{
  after_wait, fork-IsValid, schedule-IsValid, timer_trap-IsValid, timer_rest-IsValid,
  wakeup1-IsValid, kill-IsValid, yield-IsValid, sleep-IsValid, after_sleep-IsValid, setnice-IsValid,
  wait-IsValid, exit-IsValid, allocproc-IsValid,
}

-- One operation on the table, by whichever process, with whichever arguments and whatever the
-- allocators and the page tables return.
pub data Step (s : System) : System → Type 0 where
  forks : (page pgdir me : ℕ) → Step s (fork page pgdir me s).1
  schedules : Step s (schedule s)
  ticks : (cpu0 : Bool) (me : ℕ) → Step s (timer_trap cpu0 me s)
  resumes_tick : (cpu0 : Bool) (me : ℕ) → Step s (timer_rest cpu0 me s)
  wakes : (c : Chan) → Step s (wakeup1 c s)
  kills : (pid : ℕ) → Step s (kill pid s).1
  yields : (me : ℕ) → Step s (yield me s)
  sleeps_on : (c : Chan) (me : ℕ) → Step s (sleep c me s)
  resumes : (me : ℕ) → Step s (after_sleep me s)
  sets : (pid : ℕ) (value : ℤ) → Step s (setnice pid value s).1
  waits : (me : ℕ) → Step s (after_wait (wait me s))
  exits : (slots me : ℕ) {t : System} → exit slots me s ≡ some t → Step s t

pub data Reach (s : System) : System → Type 0 where
  here : Reach s s
  next : {t u : System} → Reach s t → Step t u → Reach s u

-- The increment of `nextpid` in a step, if it has one, does not overflow an `int`.
abbrev pub HasRoom : {s t : System} → Step s t → Type 0
HasRoom {s} (forks page pgdir me) = s.next_pid + 1 < 2 ^ 31
HasRoom _ = Unit

-- `nextpid` overflows in none of the steps.
abbrev pub NoOverflow : {s t : System} → Reach s t → Type 0
NoOverflow here = Unit
NoOverflow (next r st) = NoOverflow r × HasRoom st

-- Every operation in which `nextpid` does not overflow keeps the invariant: `nice` values stay in the
-- table of weights, and no two processes share an identifier.
pub Step-IsValid : {s t : System} → (st : Step s t) → HasRoom st → IsValid s → IsValid t
Step-IsValid {s} (forks page pgdir me) room v = fork-IsValid page pgdir me s v room
Step-IsValid {s} schedules _ v = schedule-IsValid s v
Step-IsValid {s} (ticks cpu0 me) _ v = timer_trap-IsValid cpu0 me s v
Step-IsValid {s} (resumes_tick cpu0 me) _ v = timer_rest-IsValid cpu0 me s v
Step-IsValid {s} (wakes c) _ v = wakeup1-IsValid c s v
Step-IsValid {s} (kills pid) _ v = kill-IsValid pid s v
Step-IsValid {s} (yields me) _ v = yield-IsValid me s v
Step-IsValid {s} (sleeps_on c me) _ v = sleep-IsValid c me s v
Step-IsValid {s} (resumes me) _ v = after_sleep-IsValid me s v
Step-IsValid {s} (sets pid value) _ v = setnice-IsValid pid value s v
Step-IsValid {s} (waits me) _ v = wait-IsValid me s v
Step-IsValid {s} {t} (exits slots me e) _ v = exit-IsValid slots me s t e v

-- So it holds in every state that the operations reach from a valid one.
pub Reach-IsValid : {s t : System} → (r : Reach s t) → NoOverflow r → IsValid s → IsValid t
Reach-IsValid here _ v = v
Reach-IsValid (next r st) (room, last) v = Step-IsValid st last (Reach-IsValid r room v)

-- The table at start-up: the zeroed entries of `ptable`, and `nextpid = 1`.
abbrev pub zeroed : Proc
zeroed = record {
  sz = 0;
  pgdir = 0;
  kstack = 0;
  state = unused;
  pid = 0;
  parent = none;
  chan = null;
  killed = false;
  name = [];
  nice = 0;
  runtime_d_weight = 0;
  runtime = 0;
  vruntime = 0;
  time_slice = 0;
}

abbrev pub boot : ℕ → System
boot n = record { procs = replicate n zeroed; next_pid = 1; init_proc = 0; current = none }

zeroed-each : (n : ℕ) → All (IsOk 1) (replicate n zeroed)
zeroed-each zero = tt
zeroed-each (suc n) = (omega arith, zeroed-each n)

zeroed-Distinct : (n : ℕ) → Distinct (replicate n zeroed)
zeroed-Distinct zero = tt
zeroed-Distinct (suc n) = (inl refl, zeroed-Distinct n)

boot-IsValid : (n : ℕ) → IsValid (boot n)
boot-IsValid n = record { each = zeroed-each n; distinct = zeroed-Distinct n }

init_slot-IsValid : (s : System) (i : ℕ) → IsValid s → IsValid (record s { init_proc = i })
init_slot-IsValid s i v = record { each = v.each; distinct = v.distinct }

userinit-IsValid :
    (page pgdir : ℕ) (s t : System)
    → userinit page pgdir s ≡ some t
    → IsValid s
    → s.next_pid + 1 < 2 ^ 31
    → IsValid t
unfolding userinit
userinit-IsValid page pgdir s t h v room = elim (Option-cases (allocproc page s).0) [
  | inl e ↦ ground arith
  | inr (i, e) ↦ subst IsValid (made i e) (
      init_slot-IsValid _ i (
        modify-IsValid (plain (first_proc pgdir) (λ p. (refl, refl))) (allocproc page s).1 i
          (allocproc page s).1.current (allocproc-IsValid page s v room)))
]
  where
    made :
        (i : ℕ)
        → (allocproc page s).0 ≡ some i
        → record (allocproc page s).1 {
          procs = modify (allocproc page s).1.procs i (first_proc pgdir);
          init_proc = i;
        }
          ≡ t
    made i e = ground arith

-- In every state that the operations reach after `userinit`, as long as no increment of `nextpid`
-- overflows an `int`, `nice` values index the table of weights and no two processes share an
-- identifier.
pub booted-IsValid :
    (n page pgdir : ℕ) {s t : System}
    → userinit page pgdir (boot n) ≡ some s
    → (r : Reach s t) → NoOverflow r
    → IsValid t
booted-IsValid n page pgdir {s} e r room =
    Reach-IsValid r room (userinit-IsValid page pgdir (boot n) s e (boot-IsValid n) (omega arith))
