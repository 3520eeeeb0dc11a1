-- ===== src/Swap/Blocks.antt =====
-- The calls on the bitmap of swap blocks, pa5_sklt_xv6/kalloc.c.
use os.Base.{
  ℕ, zero, suc, ◌+◌, ◌-◌, ◌/◌, ◌%◌, ◌≤◌, ◌<◌, ◌≡◌, ◌≢◌, refl, sym, ◌∙◌, subst, Bool, true, false,
  Option, none, some, ◌==◌, arith, ==_iff, Bool-cases, inl, inr,
}
use os.Swap.Defs.{
  swap_base, swap_max, Bitmap, BitmapResult, done, invalid, outside, beyond_page, get_bit,
  write_bit, set_bitmap, clear_bitmap, find_from, find_free_blkno, invalid_blkno,
}

pub get_bit-write_bit_eq : (m : Bitmap) (i : ℕ) (b : Bool) → get_bit (write_bit m i b) i ≡ b
get_bit-write_bit_eq m i b =
    rw ((==_iff (i / 8) (i / 8)).1 refl, (==_iff (i % 8) (i % 8)).1 refl) refl

get_bit-write_bit_ne :
    (m : Bitmap) (i j : ℕ) (b : Bool) → j ≢ i → get_bit (write_bit m i b) j ≡ get_bit m j
get_bit-write_bit_ne m i j b ne = elim (Bool-cases (j / 8 == i / 8)) [
  | inr z ↦ rw (z) refl
  | inl z ↦ elim (Bool-cases (j % 8 == i % 8)) [
    | inr y ↦ rw (z, y) refl
    | inl y ↦ absurd (ne (ground arith))
  ]
]

-- Of the n numbers from i on, `find_from` takes the first that is free.
abbrev pub Takes : ℕ → ℕ → Bitmap → BitmapResult (Option ℕ × Bitmap) → Type 0
Takes n i m invalid = ⊥
Takes n i m outside = (32768 < i + n) × ((j : ℕ) → i ≤ j → j < 32768 → get_bit m j ≡ true)
Takes n i m (done (none, m')) = (m' ≡ m) × ((j : ℕ) → i ≤ j → j < i + n → get_bit m j ≡ true)
Takes n i m (done (some blkno, m')) =
    (k : ℕ) × (blkno ≡ swap_base + k)
    × (k < 32768)
    × (i ≤ k)
    × (k < i + n)
    × (get_bit m k ≡ false)
    × ((j : ℕ) → i ≤ j → j < k → get_bit m j ≡ true)
    × (get_bit m' k ≡ true)
    × ((j : ℕ) → j ≢ k → get_bit m' j ≡ get_bit m j)

later :
    (n i : ℕ) (m : Bitmap) (r : BitmapResult (Option ℕ × Bitmap))
    → get_bit m i ≡ true
    → Takes n (i + 1) m r
    → Takes (suc n) i m r
later n i m invalid here t = t
later n i m outside here (beyond, used) = (
  omega arith,
  λ j low high. elim (Bool-cases (j == i)) [
    | inl z ↦ subst (λ k. get_bit m k ≡ true) (sym ((==_iff j i).0 z)) here
    | inr z ↦ used j (ground arith) high
  ],
)
later n i m (done (none, m')) here (same, used) = (
  same,
  λ j low high. elim (Bool-cases (j == i)) [
    | inl z ↦ subst (λ k. get_bit m k ≡ true) (sym ((==_iff j i).0 z)) here
    | inr z ↦ used j (ground arith) (omega arith)
  ],
)
later n i m (done (some blkno, m')) here (k, e, page, low, high, free, used, set, others) = (
  k,
  e,
  page,
  omega arith,
  omega arith,
  free,
  λ j l h. elim (Bool-cases (j == i)) [
    | inl z ↦ subst (λ k. get_bit m k ≡ true) (sym ((==_iff j i).0 z)) here
    | inr z ↦ used j (ground arith) h
  ],
  set,
  others,
)

find_from-Takes : (n i : ℕ) (m : Bitmap) → Takes n i m (find_from n i m)
unfolding find_from
find_from-Takes zero i m = (refl, λ j low high. absurd (omega arith))
find_from-Takes (suc n) i m = elim (Bool-cases (beyond_page i)) [
  | inl w ↦ rw (w, find_from) (last_page n i w, λ j l h. absurd (beyond i j w l h))
  | inr w ↦ elim (Bool-cases (get_bit m i)) [
    | inl z ↦
        rw (w, find_from)
          (rw (z) (later n i m (find_from n (i + 1) m) z (find_from-Takes n (i + 1) m)))
    | inr z ↦
        rw (w, find_from)
          (rw (z) (
            i,
            refl,
            within i w,
            omega arith,
            omega arith,
            z,
            λ j l h. absurd (omega arith),
            get_bit-write_bit_eq m i true,
            λ j ne. get_bit-write_bit_ne m i j true ne,
          ))
  ]
]
  where
    last_page : (n i : ℕ) → beyond_page i ≡ true → 32768 < i + suc n
    last_page n i w = ground arith

    within : (i : ℕ) → beyond_page i ≡ false → i < 32768
    within i w = ground arith

    beyond : (i j : ℕ) → beyond_page i ≡ true → i ≤ j → j < 32768 → ⊥
    beyond i j w l h = ground arith

-- `find_free_blkno` takes the lowest free block and marks it, and no other. If all blocks that the
-- page of the bitmap has bits for are taken, it reads beyond the page.
pub find_free_blkno-Takes : (m : Bitmap) → Takes swap_max 0 m (find_free_blkno m)
unfolding find_free_blkno
find_free_blkno-Takes m = find_from-Takes swap_max 0 m

-- A block of the swap space with a bit in the page of the bitmap that is cleared after it is set is free, and every other one is as before.
pub clear_bitmap-set_bitmap :
    (blkno : ℕ) (m : Bitmap)
    → swap_base ≤ blkno
    → blkno < swap_base + 32768
    → (m' m'' : Bitmap) × (set_bitmap blkno m ≡ done m')
      × (get_bit m' (blkno - swap_base) ≡ true)
      × (clear_bitmap blkno m' ≡ done m'')
      × (get_bit m'' (blkno - swap_base) ≡ false)
      × ((j : ℕ) → j ≢ blkno - swap_base → get_bit m'' j ≡ get_bit m j)
unfolding set_bitmap clear_bitmap
clear_bitmap-set_bitmap blkno m low high =
    let i = blkno - swap_base in
    let m' = write_bit m i true in
    let valid : invalid_blkno blkno ≡ false = ground arith in
    let within : beyond_page (blkno - swap_base) ≡ false = ground arith in
    (
      m',
      write_bit m' i false,
      rw (valid) (rw (within) refl),
      get_bit-write_bit_eq m i true,
      rw (valid) (rw (within) refl),
      get_bit-write_bit_eq m' i false,
      λ j ne. get_bit-write_bit_ne m' i j false ne ∙ get_bit-write_bit_ne m i j true ne,
    )
