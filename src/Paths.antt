-- ===== src/Paths.antt =====
-- The elements of path names, xv6-public/fs.c.
pub mod Defs
pub mod Names
pub mod Elements
mod Tests
