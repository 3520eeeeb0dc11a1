-- ===== src/Swap/Paging.antt =====
-- `swapout`, `reclaim`, `kalloc` and `swapin` of pa5_sklt_xv6/kalloc.c, with the two functions of
-- pa5_sklt_xv6/fs.c that read and write the swap space.
use os.Base.{ℕ, zero, suc, ◌+◌, ◌-◌, ◌/◌, ◌%◌, true, false, none, some, [], ◌∷◌, leb, if◌then◌else◌}
use Prim.Native.Nat.{bit_or}
use os.Swap.Defs.{u32, swap_max, find_free_blkno, set_bitmap, clear_bitmap, done, invalid, outside}
use os.Swap.State.{
  Pte, State, update, Result, returns, fails, panics, null_pointer, beyond_bitmap, unfinished,
  then_do, page_size, entry_of, set_entry, add_page, remove_page,
}
use os.Swap.Clock.{select_victim}

-- `SWAPMAX / BLKS_PER_PG`: swapread and swapwrite panic from this block number on.
abbrev pub slot_count : ℕ
slot_count = swap_max / 8

-- `swapwrite` of a frame to a slot.
unfoldable pub swapwrite : ℕ → ℕ → State → Result (Unit {0})
swapwrite frame blkno s =
    if leb slot_count blkno
    then panics
    else returns tt (record s { slots = update s.slots blkno (s.frames frame) })

-- `swapread` of a slot to a frame.
unfoldable pub swapread : ℕ → ℕ → State → Result (Unit {0})
swapread frame blkno s =
    if leb slot_count blkno
    then panics
    else returns tt (record s { frames = update s.frames frame (s.slots blkno) })

abbrev pub marked : ℕ → State → Result (Unit {0})
marked blkno s = elim (set_bitmap blkno s.bitmap) [
  | invalid ↦ panics
  | outside ↦ beyond_bitmap
  | done m ↦ returns tt (record s { bitmap = m })
]

abbrev pub freed_slot : ℕ → State → Result (Unit {0})
freed_slot blkno s = elim (clear_bitmap blkno s.bitmap) [
  | invalid ↦ panics
  | outside ↦ beyond_bitmap
  | done m ↦ returns tt (record s { bitmap = m })
]

-- `*pte = (blkno << 12)` with PTE_P cleared.
abbrev pub swapped_pte : ℕ → Pte
swapped_pte blkno = record {
  number = blkno;
  present = false;
  writable = false;
  user = false;
  accessed = false;
}

-- `victim->swapped = 1; victim->swap_offset = blkno`
abbrev pub note_swap : ℕ → ℕ → State → State
note_swap victim blkno s = record s {
  pages = update s.pages victim (record (s.pages victim) { swapped = true; swap_offset = blkno });
}

-- The second half of `swapout`, from its `walkpgdir` on. The page directory of a page without one is
-- a null pointer.
unfoldable pub unmap_victim : ℕ → ℕ → State → Result (Unit {0})
unmap_victim victim blkno s = elim (s.pages victim).pgdir [
  | none ↦ null_pointer
  | some d ↦ elim (entry_of s d victim) [
    | none ↦ panics
    | some e ↦ then_do (remove_page e.number s) (λ _ s'. remove_page victim (
        note_swap victim blkno
          (set_entry d ((s.pages victim).vaddr / page_size) (swapped_pte blkno) s')))
  ]
]

-- `swapout`. What is written is the frame at the number of the victim's user address.
unfoldable pub swapout : ℕ → State → Result (Unit {0})
swapout victim s = elim (find_free_blkno s.bitmap) [
  | invalid ↦ panics
  | outside ↦ beyond_bitmap
  | done (found, m) ↦ elim found [
    | none ↦ panics
    | some blkno ↦
        then_do (swapwrite ((s.pages victim).vaddr / page_size) blkno (record s { bitmap = m }))
          (λ _ s₁. then_do (marked blkno s₁) (λ _ s₂. unmap_victim victim blkno s₂))
  ]
]

-- `reclaim`; its search is given a number of rounds.
unfoldable pub reclaim : ℕ → State → Result (Unit {0})
reclaim rounds s = then_do (select_victim rounds s) (λ victim s'. swapout victim s')

-- `kalloc` with a number of tries left.
unfoldable pub kalloc : ℕ → ℕ → State → Result ℕ
kalloc zero rounds s = unfinished
kalloc (suc tries) rounds s = elim s.freelist [
  | [] ↦ then_do (reclaim rounds s) (λ _ s'. kalloc tries rounds s')
  | r ∷ rest ↦ returns r (record s {
    freelist = rest;
    lru = record s.lru { num_free_pages = (s.lru.num_free_pages + u32 - 1) % u32 };
  })
]

-- `(*pte & ~0xFFF) | V2P(mem)` with PTE_P and PTE_A.
abbrev pub swapped_in : Pte → ℕ → Pte
swapped_in e mem = record {
  number = bit_or e.number mem;
  present = true;
  writable = false;
  user = false;
  accessed = true;
}

-- `swapin` for a process with the page directory `d`, from the frame `mem` of its `kalloc` on. The
-- page that it puts into the list is the one of the old entry.
unfoldable pub fill_frame : ℕ → ℕ → ℕ → State → Result ℕ
fill_frame d n mem s = elim (s.ptes d n) [
  | none ↦ null_pointer
  | some e ↦
      if leb slot_count e.number
      then fails s
      else then_do (swapread mem e.number s) (λ _ s₁. then_do (freed_slot e.number s₁) (λ _ s₂.
        then_do (add_page e.number s₂) (λ _ s₃. returns 1 (set_entry d n (swapped_in e mem) s₃))))
]

-- `swapin`
unfoldable pub swapin : ℕ → ℕ → ℕ → ℕ → State → Result ℕ
swapin tries rounds d addr s =
    then_do (kalloc tries rounds s) (λ mem s'. fill_frame d (addr / page_size) mem s')
