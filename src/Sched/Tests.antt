-- ===== src/Sched/Tests.antt =====
-- Runs of the scheduler on a small table, and the theorems at concrete states.
use os.Base.{
  ℕ, ◌+◌, ◌-◌, ◌*◌, ◌≤◌, ◌<◌, ◌≡◌, refl, inl, none, some, [], ◌∷◌, arith, get_elem?, All, pos,
  minus_one,
}
use os.Sched.Defs.{Proc, System, object, slot, sleeping, runnable, running, zombie, u32}
use os.Sched.Ops.{fork, userinit, total_weight, slice_of, schedule, setnice}
use os.Sched.Sleep.{wakeup1, exit, wait}
use os.Sched.Valid.{IsValid}
use os.Sched.Reach.{forks, schedules, here, next, zeroed, booted-IsValid, Step-IsValid}
use os.Sched.Pick.{AtLeast, Chosen}
use os.Sched.Slices.{schedule_lem, schedule_progress, slice_of_bounds, dispatched}
use os.Sched.Wakeups.{wakeup1_ahead, wakeup1_others}
use os.Sched.Calls.{setnice_refused}
use os.Sched.Orphans.{Childless, exit-Childless}
use os.Sched.Waits.{Outcome, wait-Outcome}

abbrev proc : ℕ → ℕ → ℕ → Proc
proc pid nice vruntime = record zeroed {
  state = runnable;
  pid = pid;
  parent = some 0;
  nice = nice;
  vruntime = vruntime;
  kstack = 1;
}

-- `init` sleeps in slot 0, two processes are ready, one sleeps on the ticks and one has ended.
abbrev table : System
table = record {
  procs =
      record (proc 1 20 0) { state = sleeping; chan = slot 0; parent = none }
      ∷ proc 2 20 5000
      ∷ proc 3 0 4000
      ∷ record (proc 4 39 9000) { state = sleeping; chan = object 0 }
      ∷ record (proc 5 20 1) { state = zombie }
      ∷ [];
  next_pid = 6;
  init_proc = 0;
  current = none;
}

table-IsValid : IsValid table
table-IsValid = record { each = omega arith; distinct = omega arith }

picks : (schedule table).current ≡ some 2
unfolding schedule
picks = refl

schedule_lem_example :
    (c : Chosen table.procs (u32 - 1) 2) × (get_elem? (schedule table).procs 2
      ≡ some (dispatched (total_weight table.procs) c.proc))
unfolding schedule
schedule_lem_example = schedule_lem table 2 refl

schedule_progress_example : (i : ℕ) × ((schedule table).current ≡ some i)
schedule_progress_example =
    schedule_progress table 1 (proc 2 20 5000) table-IsValid refl refl (omega arith)

slice_of_bounds_example :
    (10 * 1000 * 1024 ≤ slice_of 1024 89785 * 89785)
    × (slice_of 1024 89785 * 89785 < 10 * 1000 * 1024 + 89785)
    × (1 ≤ slice_of 1024 89785)
    × (slice_of 1024 89785 ≤ 10 * 1000)
slice_of_bounds_example = slice_of_bounds 1024 89785 (omega arith) (omega arith)

wakeup1_ahead_example :
    (q : Proc) × (get_elem? (wakeup1 (object 0) table).procs 3 ≡ some q)
    × (q.state ≡ runnable)
    × All (AtLeast q.vruntime) table.procs
wakeup1_ahead_example =
    wakeup1_ahead (object 0) table 3 (record (proc 4 39 9000) { state = sleeping; chan = object 0 })
      refl refl

wakeup1_others_example : get_elem? (wakeup1 (object 0) table).procs 1 ≡ some (proc 2 20 5000)
wakeup1_others_example = wakeup1_others (object 0) table 1 (proc 2 20 5000) refl refl

setnice_refused_example : setnice 3 (pos 40) table ≡ (minus_one, table)
setnice_refused_example = setnice_refused 3 (pos 40) table (inl refl)

-- Process 2 runs with 5000 ticks of its slice left.
abbrev busy : Proc
busy = record (proc 2 20 5000) { state = running; time_slice = 5000 }

abbrev running_table : System
running_table = record table { procs = busy ∷ []; current = some 0 }

-- Process 2, in slot 1, ends; its child in slot 2 goes to `init`.
abbrev family : System
family = record table {
  procs =
      record (proc 1 20 0) { state = sleeping; chan = slot 0; parent = none }
      ∷ record busy { parent = some 0 }
      ∷ record (proc 3 0 4000) { parent = some 1 }
      ∷ [];
  current = some 1;
}

abbrev family_after : System
family_after = record family {
  procs =
      record (proc 1 20 0) { state = runnable; vruntime = 3000; chan = slot 0; parent = none }
      ∷ record busy { parent = some 0; state = zombie }
      ∷ record (proc 3 0 4000) { parent = some 0 }
      ∷ [];
  current = none;
}

exit-Childless_example :
    Childless 1 family_after.procs
    × ((z : Proc) → get_elem? family_after.procs 1 ≡ some z → z.state ≡ zombie)
unfolding exit
exit-Childless_example = exit-Childless 3 1 family family_after (omega arith) refl

wait-Outcome_example :
    Outcome 0
      (record (proc 1 20 0) { state = sleeping; chan = slot 0; parent = none })
      table
      (wait 0 table)
wait-Outcome_example = wait-Outcome 0 _ table refl

Step-IsValid_example : IsValid (schedule table)
Step-IsValid_example = Step-IsValid {s = table} schedules tt table-IsValid

abbrev booted : System
booted = record {
  procs =
      record zeroed {
        state = runnable;
        pid = 1;
        nice = 20;
        kstack = 7;
        pgdir = 8;
        sz = 4096;
        name = 105 ∷ 110 ∷ 105 ∷ 116 ∷ 99 ∷ 111 ∷ 100 ∷ 101 ∷ [];
      }
      ∷ zeroed
      ∷ [];
  next_pid = 2;
  init_proc = 0;
  current = none;
}

booted-IsValid_example : IsValid (fork 9 10 0 (schedule booted)).1
unfolding userinit schedule
booted-IsValid_example =
    booted-IsValid 2 7 8 {s = booted} refl (next (next here schedules) (forks 9 10 0))
      ((tt, tt), omega arith)
