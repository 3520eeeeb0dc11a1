-- ===== src/Cache.antt =====
-- The buffer cache with its sleep locks, xv6-public/bio.c, sleeplock.c and memide.c.
pub mod Defs
pub mod Search
pub mod Coherence
pub mod Reads
pub mod Writes
pub mod Releases
pub mod Steps
mod Tests
