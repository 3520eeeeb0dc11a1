-- ===== src/Swap/Defs.antt =====
-- The bitmap of swap blocks and the circular list of swappable pages, pa5_sklt_xv6/kalloc.c.
use os.Base.{
  ℕ, zero, suc, ◌+◌, ◌-◌, ◌/◌, ◌%◌, ◌^◌, Bool, true, false, ◌&&◌, ◌||◌, not, Option, none, some,
  ◌==◌, ltb, leb, if◌then◌else◌,
}

-- SWAPBASE and SWAPMAX
abbrev pub swap_base : ℕ
swap_base = 500

abbrev pub swap_max : ℕ
swap_max = 100000 - swap_base

-- The bytes from `swap.bitmap` on, each by its bits.
abbrev pub Bitmap : Type 0
Bitmap = ℕ → ℕ → Bool

-- `bitmap[i / 8] & (1 << (i % 8))`
abbrev pub get_bit : Bitmap → ℕ → Bool
get_bit m i = m (i / 8) (i % 8)

-- The same bit set to b.
abbrev pub write_bit : Bitmap → ℕ → Bool → Bitmap
write_bit m i b j k = if j == i / 8 && k == i % 8 then b else m j k

-- The bitmap is one page; what lies after its 4096 bytes is other memory.
abbrev pub beyond_page : ℕ → Bool
beyond_page i = leb 4096 (i / 8)

-- How a call on the bitmap ends: with its result, in a panic, or with an access beyond the page.
pub data BitmapResult {ℓ} (A : Type ℓ) : Type ℓ where
  done : A → BitmapResult A
  invalid : BitmapResult A
  outside : BitmapResult A

-- `blkno - SWAPBASE` is out of the range from 0 to SWAPMAX.
abbrev pub invalid_blkno : ℕ → Bool
invalid_blkno blkno = ltb blkno swap_base || leb swap_max (blkno - swap_base)

-- `set_bitmap` and `clear_bitmap`: the bit of the block set to b.
abbrev pub set_to : Bool → ℕ → Bitmap → BitmapResult Bitmap
set_to b blkno m =
    if invalid_blkno blkno
    then invalid
    else if beyond_page (blkno - swap_base)
    then outside
    else done (write_bit m (blkno - swap_base) b)

unfoldable pub set_bitmap : ℕ → Bitmap → BitmapResult Bitmap
set_bitmap blkno m = set_to true blkno m

unfoldable pub clear_bitmap : ℕ → Bitmap → BitmapResult Bitmap
clear_bitmap blkno m = set_to false blkno m

-- The loop of `find_free_blkno` over n numbers from i on.
unfoldable pub find_from : ℕ → ℕ → Bitmap → BitmapResult (Option ℕ × Bitmap)
find_from zero i m = done (none, m)
find_from (suc n) i m =
    let rest = find_from n (i + 1) m in
    if beyond_page i
    then outside
    else if not (get_bit m i)
    then done (some (swap_base + i), write_bit m i true)
    else rest

-- `find_free_blkno`; -1 is `none`.
unfoldable pub find_free_blkno : Bitmap → BitmapResult (Option ℕ × Bitmap)
find_free_blkno m = find_from swap_max 0 m

abbrev pub u32 : ℕ
u32 = 2 ^ 32

-- The fields `next` and `prev` of each `struct page`, by its index in `pages`; `page_lru_head`; and
-- the two counters, words in two's complement.
pub record Lru : Type 0 where
  pub next : ℕ → Option ℕ
  pub prev : ℕ → Option ℕ
  pub page_lru_head : Option ℕ
  pub num_lru_pages : ℕ
  pub num_free_pages : ℕ

abbrev pub link : (ℕ → Option ℕ) → ℕ → Option ℕ → ℕ → Option ℕ
link f a v x = if x == a then v else f x

-- The counters after a page is added and after one is removed.
abbrev pub count_added : Lru → Lru
count_added l = record l {
  num_lru_pages = (l.num_lru_pages + 1) % u32;
  num_free_pages = (l.num_free_pages + u32 - 1) % u32;
}

abbrev pub count_removed : Lru → Lru
count_removed l = record l {
  num_lru_pages = (l.num_lru_pages + u32 - 1) % u32;
  num_free_pages = (l.num_free_pages + 1) % u32;
}

-- `lru_add`. The use of a null pointer is `none`.
unfoldable pub lru_add : ℕ → Lru → Option Lru
lru_add page l = elim l.page_lru_head [
  | none ↦ some (
      count_added (record l {
        page_lru_head = some page;
        next = link l.next page (some page);
        prev = link l.prev page (some page);
      }))
  | some head ↦ elim (l.prev head) [
    | none ↦ none
    | some tail ↦ some (
        count_added (record l {
          next = link (link l.next tail (some page)) page (some head);
          prev = link (link l.prev page (some tail)) head (some page);
        }))
  ]
]

-- `page->next == page`
abbrev pub is_single : ℕ → Lru → Bool
is_single page l = elim (l.next page) [ none ↦ false | some n ↦ n == page ]

-- `page->next = page->prev = 0`
abbrev pub unlink : ℕ → Lru → Lru
unlink page l = record l { next = link l.next page none; prev = link l.prev page none }

-- `page->prev->next = page->next; page->next->prev = page->prev`, and the head moved on from the page.
unfoldable pub bypass : ℕ → Lru → Option Lru
bypass page l = elim (l.prev page) [
  | none ↦ none
  | some p ↦
      let next' = link l.next p (l.next page) in
      elim (next' page) [
        | none ↦ none
        | some n ↦
            let prev' = link l.prev n (l.prev page) in
            some (record l {
              next = next';
              prev = prev';
              page_lru_head = elim l.page_lru_head [
                | none ↦ none
                | some h ↦ if h == page then next' page else some h
              ];
            })
      ]
]

-- `lru_remove`
unfoldable pub lru_remove : ℕ → Lru → Option Lru
lru_remove page l =
    if is_single page l
    then some (count_removed (unlink page (record l { page_lru_head = none })))
    else elim (bypass page l) [ none ↦ none | some l' ↦ some (count_removed (unlink page l')) ]
