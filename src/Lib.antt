-- ===== src/Lib.antt =====
-- A model of four versions of the xv6 kernel: xv6-public (the first), xv6-public_pa2 (nice values
-- and a fair scheduler), pa3/xv6-public (memory areas) and pa5_sklt_xv6 (swapping). They share
-- most of their files; each part below is modelled from the version that changes it. But for
-- Syscall, which calls Files, and Inode, which calls Blocks, a part does not call another one:
-- the kernel joins them by the process that a call is made for, which is an argument here.
--
-- * Sched, xv6-public_pa2/proc.c, proc.h and trap.c. The process table and the fair scheduler.
--   Sched/Defs has `struct proc` and `ptable` with the table of weights; Sched/Ops has allocproc,
--   userinit, fork, one round of scheduler, getnice and setnice; Sched/Sleep has yield, sleep,
--   wakeup1, kill, exit and wait; Sched/Timer has the timer interrupt of trap. Of the others,
--   Weights and Slices are about the arithmetic of weights and slices, Pick and Slices about the
--   choice of scheduler, Valid, Keeps and Reach about the invariant, and Wakeups, Waits, Orphans
--   and Calls about single operations.
--
-- * Log, xv6-public/log.c. The redo log. Log/Defs has every function of the file over a disk, the
--   loops over the words of the header block included (Log/Header: it is read back as it was
--   written); a transaction reads its blocks by bread and writes them by bwrite, one write a
--   step. Log/Disk and Log/Crash cut a sequence of writes off after any number of them;
--   Log/Commit is about a commit and its recovery, Log/Reserve about the reservations of
--   operations.
--
-- * Mmap, pa3/xv6-public/proc.c, kalloc.c, vm.c and file.c. Memory areas. Mmap/Memory has the
--   free list with its count, page tables with their entries as words, and open files; Mmap/Defs
--   has mmap, the page fault handler and munmap, and Mmap/Fork the part of fork that copies
--   areas. Pages, Faults, Kills, Unmaps and Opens are about these.
--
-- * Pipe, xv6-public/pipe.c. Pipes. Pipe/Defs has the ring buffer with its wrapping counters and
--   the three calls on it, Pipe/Queue has its view as a queue.
--
-- * Text, xv6-public/string.c. Memory and strings. Text/Defs has the functions over a memory of
--   bytes by address, with stosb and stosl of x86.h; Text/Moves and Text/Strings are about what
--   they leave.
--
-- * Files, xv6-public/file.c. Open files: filealloc, filedup and fileclose over the table
--   (Files/Defs), and their reference counts (Files/References).
--
-- * Locks, xv6-public/spinlock.c. pushcli and popcli (Locks/Defs) and their nesting
--   (Locks/Nesting).
--
-- * Swap, pa5_sklt_xv6/kalloc.c. The bitmap of swap blocks, which is one page, and the circular
--   list of pages (Swap/Defs); Swap/Blocks and Swap/Ring are about each. Swap/State has the
--   pages, page tables, slots and frames, Swap/Clock select_victim, and Swap/Paging swapout,
--   reclaim, kalloc and swapin with the functions of fs.c that read and write a slot. Rounds is
--   about the search for a victim, Failures about swapout and kalloc without a free frame,
--   Returns about swapin.
--
-- * Cache, xv6-public/bio.c, sleeplock.c and memide.c. The buffer cache. Cache/Defs has the
--   buffers with their sleep locks, the order of their list and the disk, and every function of
--   bio.c and sleeplock.c; Search, Coherence, Reads, Writes, Releases and Steps are about which
--   buffers agree with the disk.
--
-- * Syscall, xv6-public/syscall.c and sysfile.c. The arguments of system calls and file
--   descriptors (Syscall/Defs); Args and Strings are about what an accepted argument points to,
--   Requests about the checks of sys_read and sys_write, Descriptors about sys_dup and sys_close,
--   which go on in the table of Files.
--
-- * Console, xv6-public/console.c. The input of the console. Console/Defs has the ring with
--   consoleintr and consoleread; Lines the same as two lists, of committed bytes and of the line
--   being edited; Window, Keys, Typing, Reads and Sessions relate the two.
--
-- * Inode, xv6-public/fs.c. bmap over the allocation of Blocks (Inode/Defs) and readi of an inode
--   that is no device (Inode/Access), whose loop has as many rounds as bytes to read, for each
--   round reads at least one; Words is about the words of a block, Slots about well-formed
--   inodes, Own and Indirect about the two places of an address, Bmap and Readi about the whole.
--
-- * Paths, xv6-public/fs.c. Path names: skipelem (Paths/Defs), the text of the names that it
--   writes (Paths/Names), and the names that the loop of namex takes off a path (Paths/Elements).
--
-- * Numbers, xv6-public/printf.c and ulib.c. printint and atoi (Numbers/Defs), and decimal text
--   (Numbers/Decimal). The loop of printint has the 16 rounds for which its buffer has room; a
--   word in base 10 needs 10.
--
-- * Grep, xv6-public/grep.c. The matcher of regular expressions (Grep/Defs), and what a star and
--   a search stand for (Grep/Matches).
--
-- * Blocks, xv6-public/fs.c. The allocation of disk blocks: bzero, balloc and bfree
--   (Blocks/Defs), and the search of balloc (Blocks/Allocation) and what it keeps (Blocks/Frame).
--
-- Words of 32 bits are natural numbers with the remainder by 2 ^ 32 written out where the source
-- can wrap; nextpid, an int, wraps as a word, and what is said of process identifiers is for runs
-- in which it does not. A loop over a table or an area is recursion on its entries or on its
-- number of rounds, computed from the bounds the loop has. Two loops of pa5_sklt_xv6/kalloc.c
-- have no such bound: select_victim takes a number of rounds, for which the length of the list of
-- pages and one more is enough if user code may use the pages, and kalloc a number of tries. What
-- the build or the compiler sets is a parameter: the end of the memory of the kernel (kernel_end
-- of Mmap/Memory) and the way in which the words of a block are read and written (BlockWords of
-- Log/Defs, with its laws). An access beyond the page of the swap bitmap is an outcome of its
-- own. Locks are taken to exclude each other, so an operation is one step; the scheduler, a crash
-- and an interrupt come between steps.
--
-- Not modelled: directories, the lookups of namex and most calls on its inodes, devices and
-- interrupts, boot code, exec, the other system calls, and the programs of users, which are
-- further parts of the same design; output to the console; the assembler.
pub mod Base
pub mod Blocks
pub mod Cache
pub mod Console
pub mod Files
pub mod Grep
pub mod Inode
pub mod Locks
pub mod Log
pub mod Mmap
pub mod Numbers
pub mod Paths
pub mod Pipe
pub mod Sched
pub mod Swap
pub mod Syscall
pub mod Text
