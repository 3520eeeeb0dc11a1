-- ===== src/Text.antt =====
-- Memory and strings in the kernel, xv6-public/string.c.
pub mod Defs
pub mod Moves
pub mod Strings
mod Tests
