-- ===== src/Sched/Timer.antt =====
-- The timer interrupt in xv6-public_pa2/trap.c.
use os.Base.{ℕ, ◌+◌, ◌-◌, ◌*◌, ◌/◌, ◌%◌, Bool, none, some, get_elem?, modify, ◌==◌, if◌then◌else◌}
use os.Sched.Defs.{is_running, Chan, object, Proc, System, weight, u32}
use os.Sched.Sleep.{wakeup1, yield}

-- The block marked (pa2): the accounts of the running process after a tick of 1000 ms. `uint`
-- wraps; `time_slice--` at 0 gives the largest word.
unfoldable pub charge : Proc → Proc
unfolding weight
charge p =
    let ran = (p.runtime + 1000) % u32 in
    record p {
      runtime = ran;
      vruntime = (p.vruntime + 1000 * weight 20 / weight p.nice) % u32;
      runtime_d_weight = ran / weight p.nice;
      time_slice = (p.time_slice + u32 - 1) % u32;
    }

-- The channel `&ticks`.
abbrev pub ticks_chan : Chan
ticks_chan = object 0

-- The last `if` but one of `trap`: a process that is still running yields.
unfoldable pub yield_if_running : ℕ → System → System
unfolding yield
yield_if_running me s = elim (get_elem? s.procs me) [
  | none ↦ s
  | some p ↦ if is_running p.state then yield me s else s
]

-- The rest of `trap` on a timer interrupt: processor 0 wakes the sleepers on `ticks`, and a process
-- that is still running yields. The exits of killed processes are left to `exit`.
unfoldable pub timer_rest : (cpu0 : Bool) → ℕ → System → System
unfolding wakeup1 yield_if_running
timer_rest cpu0 me s = yield_if_running me (if cpu0 then wakeup1 ticks_chan s else s)

-- `trap` on a timer interrupt while the process in slot `me` runs: it is charged, and when its
-- slice is used up it yields at once (`timer_rest` then follows when it is resumed).
unfoldable pub timer_trap : (cpu0 : Bool) → ℕ → System → System
unfolding charge timer_rest yield
timer_trap cpu0 me s = elim (get_elem? s.procs me) [
  | none ↦ s
  | some p ↦
      if is_running p.state
      then (let s' = record s { procs = modify s.procs me charge } in
          if (charge p).time_slice == 0 then yield me s' else timer_rest cpu0 me s')
      else timer_rest cpu0 me s
]
