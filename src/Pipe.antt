-- ===== src/Pipe.antt =====
-- The ring buffer of a pipe, xv6-public/pipe.c.
pub mod Defs
pub mod Queue
mod Tests
