-- ===== src/Blocks.antt =====
-- Allocation of disk blocks, xv6-public/fs.c.
pub mod Defs
pub mod Allocation
pub mod Frame
mod Tests
