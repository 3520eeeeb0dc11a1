-- ===== src/Syscall.antt =====
-- The arguments of system calls and file descriptors, xv6-public/syscall.c and sysfile.c.
pub mod Defs
pub mod Args
pub mod Strings
pub mod Requests
pub mod Descriptors
mod Tests
