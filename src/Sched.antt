-- ===== src/Sched.antt =====
-- The process table and the fair scheduler of xv6-public_pa2/proc.c, and the timer interrupt of
-- xv6-public_pa2/trap.c. Each operation holds `ptable.lock` from its first to its last access of
-- the table, so it is one step on the state of the table.
pub mod Defs
pub mod Ops
pub mod Sleep
pub mod Timer
pub mod Weights
pub mod Pick
pub mod Valid
pub mod Keeps
pub mod Reach
pub mod Slices
pub mod Wakeups
pub mod Calls
pub mod Orphans
pub mod Waits
mod Tests
