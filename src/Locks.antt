-- ===== src/Locks.antt =====
-- Disabling interrupts around locks, xv6-public/spinlock.c.
pub mod Defs
pub mod Nesting
mod Tests
