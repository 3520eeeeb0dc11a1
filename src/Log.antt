-- ===== src/Log.antt =====
-- The redo log of the file system, xv6-public/log.c, over a disk whose power may fail before any
-- write.
pub mod Defs
mod Header
pub mod Disk
pub mod Crash
pub mod Commit
pub mod Reserve
mod Tests
