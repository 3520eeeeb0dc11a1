-- ===== src/Mmap.antt =====
-- Memory mappings of pa3/xv6-public: the table of mapped areas in proc.c, the page allocator in
-- kalloc.c and the page tables in vm.c.
pub mod Memory
pub mod Defs
pub mod Fork
pub mod Pages
pub mod Faults
pub mod Kills
pub mod Unmaps
pub mod Opens
mod Tests
