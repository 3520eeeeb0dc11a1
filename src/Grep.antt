-- ===== src/Grep.antt =====
-- The matcher of regular expressions, xv6-public/grep.c.
pub mod Defs
pub mod Matches
mod Tests
