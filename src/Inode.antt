-- ===== src/Inode.antt =====
-- The blocks of a file, xv6-public/fs.c.
pub mod Defs
pub mod Words
pub mod Slots
pub mod Own
pub mod Indirect
pub mod Bmap
pub mod Access
pub mod Readi
mod Tests
