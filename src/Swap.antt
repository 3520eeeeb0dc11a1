-- ===== src/Swap.antt =====
-- Swapping, pa5_sklt_xv6/kalloc.c: the bitmap of blocks and the list of swappable pages.
pub mod Defs
pub mod Blocks
pub mod Ring
pub mod State
pub mod Clock
pub mod Rounds
pub mod Paging
pub mod Failures
pub mod Returns
mod Tests
mod PagingTests
