-- ===== src/Files.antt =====
-- The table of open files, xv6-public/file.c.
pub mod Defs
pub mod References
mod Tests
