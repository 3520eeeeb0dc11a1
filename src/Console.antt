-- ===== src/Console.antt =====
-- The input of the console, xv6-public/console.c.
pub mod Defs
pub mod Window
pub mod Lines
pub mod Keys
pub mod Typing
pub mod Reads
pub mod Sessions
mod Tests
