-- ===== src/Swap/State.antt =====
-- Pages, page tables, swap slots and frames, as pa5_sklt_xv6/kalloc.c moves data between them.
use os.Base.{ℕ, ◌/◌, Bool, Option, none, some, List, ◌==◌, if◌then◌else◌}
use os.Swap.Defs.{Bitmap, Lru, lru_remove, lru_add}

-- A page table entry: its address bits divided by PGSIZE, and PTE_P, PTE_W, PTE_U and PTE_A.
pub record Pte : Type 0 where
  pub number : ℕ
  pub present : Bool
  pub writable : Bool
  pub user : Bool
  pub accessed : Bool

-- The fields of a `struct page` besides its links.
pub record PageInfo : Type 0 where
  pub pgdir : Option ℕ
  pub vaddr : ℕ
  pub swapped : Bool
  pub swap_offset : ℕ

-- The bytes of a page, by their offset.
abbrev pub Bytes : Type 0
Bytes = ℕ → ℕ

-- `pages`, the list of swappable ones, the page tables as `walkpgdir` reads them (by page directory
-- and page number; `none` where there is no table), the bitmap, the slots of the swap space by block
-- number, the frames' bytes, and the free list.
pub record State : Type 0 where
  pub pages : ℕ → PageInfo
  pub lru : Lru
  pub ptes : ℕ → ℕ → Option Pte
  pub bitmap : Bitmap
  pub slots : ℕ → Bytes
  pub frames : ℕ → Bytes
  pub freelist : List ℕ

abbrev pub update {ℓ} : {A : Type ℓ} → (ℕ → A) → ℕ → A → ℕ → A
update f a v x = if x == a then v else f x

-- How a call ends: with a result, with its result for a failure, in a panic, at the use of a null
-- pointer, with an access beyond the page of the bitmap, or not within its rounds.
pub data Result {ℓ} (A : Type ℓ) : Type ℓ where
  returns : A → State → Result A
  fails : State → Result A
  panics : Result A
  null_pointer : Result A
  beyond_bitmap : Result A
  unfinished : Result A

abbrev pub then_do {ℓ κ} : {A : Type ℓ} {B : Type κ} → Result A → (A → State → Result B) → Result B
then_do (returns a s) f = f a s
then_do (fails s) f = fails s
then_do panics f = panics
then_do null_pointer f = null_pointer
then_do beyond_bitmap f = beyond_bitmap
then_do unfinished f = unfinished

-- PTE_ADDR and the like divide by it.
abbrev pub page_size : ℕ
page_size = 4096

-- `walkpgdir(page->pgdir, page->vaddr, 0)`, for a page with a page directory.
abbrev pub entry_of : State → ℕ → ℕ → Option Pte
entry_of s d page = s.ptes d ((s.pages page).vaddr / page_size)

-- `*pte = e` for the entry at that place.
abbrev pub set_entry : ℕ → ℕ → Pte → State → State
set_entry d n e s = record s { ptes = update s.ptes d (update (s.ptes d) n (some e)) }

-- `lru_add` and `lru_remove` on the state.
abbrev pub add_page : ℕ → State → Result (Unit {0})
add_page page s = elim (lru_add page s.lru) [
  | none ↦ null_pointer
  | some l ↦ returns tt (record s { lru = l })
]

abbrev pub remove_page : ℕ → State → Result (Unit {0})
remove_page page s = elim (lru_remove page s.lru) [
  | none ↦ null_pointer
  | some l ↦ returns tt (record s { lru = l })
]
