-- ===== src/Swap/Failures.antt =====
-- What `swapout` and `kalloc` of pa5_sklt_xv6/kalloc.c do not return from, and what `swapin` leaves.
use os.Base.{
  ℕ, zero, suc, ◌/◌, ◌≡◌, Bool, true, false, not, Option, none, some, [], leb, if◌then◌else◌,
  Bool-cases, Option-cases, inl, inr, ◌⊎◌,
}
use os.Swap.Defs.{
  Lru, Bitmap, BitmapResult, done, invalid, outside, find_free_blkno, set_bitmap, lru_remove,
}
use os.Swap.State.{
  Pte, State, update, Result, returns, fails, panics, null_pointer, beyond_bitmap, unfinished,
  then_do, page_size, entry_of, set_entry, remove_page,
}
use os.Swap.Clock.{clock, select_victim, give_chance}
use os.Swap.Ring.{lru_remove-lru_remove}
use os.Swap.Paging.{
  slot_count, swapwrite, marked, swapped_pte, note_swap, unmap_victim, swapout, reclaim, kalloc,
}

-- The victim is the page of its own entry.
abbrev pub IsMapped : ℕ → State → Type 0
IsMapped victim s =
    (d : ℕ) × (e : Pte) × ((s.pages victim).pgdir ≡ some d)
    × (entry_of s d victim ≡ some e)
    × (e.number ≡ victim)

-- Whatever a call returns satisfies Q, and it does not fail.
abbrev pub Post {ℓ} : {A : Type ℓ} → (A → State → Type 0) → Result A → Type 0
Post Q (returns a s) = Q a s
Post Q (fails s) = ⊥
Post Q panics = Unit
Post Q null_pointer = Unit
Post Q beyond_bitmap = Unit
Post Q unfinished = Unit

Post-then_do {ℓ κ} :
    {A : Type ℓ} {B : Type κ} (P : A → State → Type 0) (Q : B → State → Type 0) (r : Result A)
    (f : A → State → Result B)
    → Post P r
    → ((a : A) (s : State) → P a s → Post Q (f a s))
    → Post Q (then_do r f)
Post-then_do P Q (returns a s) f p rest = rest a s p
Post-then_do P Q (fails s) f p rest = absurd p
Post-then_do P Q panics f p rest = tt
Post-then_do P Q null_pointer f p rest = tt
Post-then_do P Q beyond_bitmap f p rest = tt
Post-then_do P Q unfinished f p rest = tt

-- The calls on the bitmap and the swap space keep what says nothing of them.
module _ (Q : State → Type 0) where
  swapwrite-Post :
      (frame blkno : ℕ) (s : State)
      → Q (record s { slots = update s.slots blkno (s.frames frame) })
      → Post (λ _ s'. Q s') (swapwrite frame blkno s)
  unfolding swapwrite
  swapwrite-Post frame blkno s q = elim (Bool-cases (leb slot_count blkno)) [
    | inl z ↦ rw (z, swapwrite) tt
    | inr z ↦ rw (z, swapwrite) q
  ]

  marked-Post :
      (blkno : ℕ) (s : State)
      → ((m : Bitmap) → Q (record s { bitmap = m }))
      → Post (λ _ s'. Q s') (marked blkno s)
  marked-Post blkno s q = go (set_bitmap blkno s.bitmap)
    where
      go :
          (o : BitmapResult Bitmap)
          → Post {0} {A = Unit {0}}
              (λ _ s'. Q s')
              (elim o [
                | invalid ↦ panics
                | outside ↦ beyond_bitmap
                | done m ↦ returns tt (record s { bitmap = m })
              ])
      go invalid = tt
      go outside = tt
      go (done m) = q m

  remove_page-Post :
      (page : ℕ) (s : State)
      → ((l : Lru) → Q (record s { lru = l }))
      → Post (λ _ s'. Q s') (remove_page page s)
  remove_page-Post page s q = go (lru_remove page s.lru)
    where
      go :
          (o : Option Lru)
          → Post {0} {A = Unit {0}}
              (λ _ s'. Q s')
              (elim o [ none ↦ null_pointer | some l ↦ returns tt (record s { lru = l }) ])
      go none = tt
      go (some l) = q l

unmap_victim_lem :
    (victim blkno : ℕ) (s : State)
    → IsMapped victim s
    → Post (λ _ _. ⊥) (unmap_victim victim blkno s)
unfolding unmap_victim
unmap_victim_lem victim blkno s (d, e, at, found, own) =
    rw (at, unmap_victim) (rw (found) (rw (own) (twice (Option-cases (lru_remove victim s.lru)))))
  where
    twice :
        (lru_remove victim s.lru ≡ none) ⊎ ((l : Lru) × (lru_remove victim s.lru ≡ some l))
        → Post
            (λ _ _. ⊥)
            (then_do (remove_page victim s) (λ _ s'. remove_page victim (
              note_swap victim blkno
                (set_entry d ((s.pages victim).vaddr / page_size) (swapped_pte blkno) s'))))
    twice (inl z) = rw (z, then_do) tt
    twice (inr (l, z)) = rw (z, then_do) (rw (lru_remove-lru_remove victim s.lru l z, Post) tt)

-- `swapout` by its second half, for a property Q of the state that the bitmap and the slots have no
-- part in.
swapout-Post :
    (Q : State → Type 0) (R : Unit {0} → State → Type 0) (victim : ℕ) (s : State)
    → Q s
    → ((s' : State) (m : Bitmap) → Q s' → Q (record s' { bitmap = m }))
    → ((s' : State) (f : ℕ → ℕ → ℕ) → Q s' → Q (record s' { slots = f }))
    → ((blkno : ℕ) (s' : State) → Q s' → Post R (unmap_victim victim blkno s'))
    → Post R (swapout victim s)
unfolding swapout
swapout-Post Q R victim s q with_bitmap with_slots rest = go (find_free_blkno s.bitmap)
  where
    go :
        (o : BitmapResult (Option ℕ × Bitmap))
        → Post R (elim o [
          | invalid ↦ panics
          | outside ↦ beyond_bitmap
          | done (found, m) ↦ elim found [
            | none ↦ panics
            | some blkno ↦
                then_do
                  (swapwrite ((s.pages victim).vaddr / page_size) blkno (record s { bitmap = m }))
                  (λ _ s₁. then_do (marked blkno s₁) (λ _ s₂. unmap_victim victim blkno s₂))
          ]
        ])
    go invalid = tt
    go outside = tt
    go (done (none, m)) = tt
    go (done (some blkno, m)) =
        let frame = (s.pages victim).vaddr / page_size in
        let s₁ = record s { bitmap = m } in
        Post-then_do (λ _ s'. Q s') R (swapwrite frame blkno s₁)
          (λ _ s'. then_do (marked blkno s') (λ _ s''. unmap_victim victim blkno s''))
          (swapwrite-Post Q frame blkno s₁
            (with_slots s₁ (update s.slots blkno (s.frames frame)) (with_bitmap s m q)))
          (λ _ s' q'.
            Post-then_do (λ _ s''. Q s'') R (marked blkno s')
              (λ _ s''. unmap_victim victim blkno s'')
              (marked-Post Q blkno s' (λ m'. with_bitmap s' m' q'))
              (λ _ s'' q''. rest blkno s'' q''))

-- `swapout` of a page that is mapped by its own entry does not return: it panics, uses a null
-- pointer, or reads beyond the bitmap.
pub swapout_never_returns :
    (victim : ℕ) (s : State) → IsMapped victim s → Post (λ _ _. ⊥) (swapout victim s)
swapout_never_returns victim s mapped =
    swapout-Post (IsMapped victim) (λ _ _. ⊥) victim s mapped (λ s' m q. q) (λ s' f q. q)
      (λ blkno s' q. unmap_victim_lem victim blkno s' q)

abbrev pub NoneFree : State → Type 0
NoneFree s = s.freelist ≡ []

unmap_victim-NoneFree :
    (victim blkno : ℕ) (s : State)
    → NoneFree s
    → Post (λ _ s'. NoneFree s') (unmap_victim victim blkno s)
unfolding unmap_victim
unmap_victim-NoneFree victim blkno s q = elim (Option-cases (s.pages victim).pgdir) [
  | inl z ↦ rw (z, unmap_victim) tt
  | inr (d, z) ↦ elim (Option-cases (entry_of s d victim)) [
    | inl y ↦ rw (z, unmap_victim) (rw (y) tt)
    | inr (e, y) ↦
        rw (z, unmap_victim)
          (rw (y) (
            Post-then_do (λ _ s'. NoneFree s') (λ _ s'. NoneFree s') (remove_page e.number s)
              (λ _ s'. remove_page victim (
                note_swap victim blkno
                  (set_entry d ((s.pages victim).vaddr / page_size) (swapped_pte blkno) s')))
              (remove_page-Post NoneFree e.number s (λ l. q))
              (λ _ s' q'.
                remove_page-Post NoneFree victim
                  (note_swap victim blkno
                    (set_entry d ((s.pages victim).vaddr / page_size) (swapped_pte blkno) s'))
                  (λ l. q'))))
  ]
]

swapout-NoneFree :
    (victim : ℕ) (s : State) → NoneFree s → Post (λ _ s'. NoneFree s') (swapout victim s)
unfolding swapout
swapout-NoneFree victim s q =
    swapout-Post NoneFree (λ _ s'. NoneFree s') victim s q (λ s' m q'. q') (λ s' f q'. q')
      (λ blkno s' q'. unmap_victim-NoneFree victim blkno s' q')

clock-NoneFree :
    (n : ℕ) (current : Option ℕ) (s : State)
    → NoneFree s
    → Post (λ _ s'. NoneFree s') (clock n current s)
unfolding clock
clock-NoneFree zero current s q = tt
clock-NoneFree (suc n) none s q = tt
clock-NoneFree (suc n) (some page) s q = elim (Option-cases (s.pages page).pgdir) [
  | inl z ↦ rw (z, clock) tt
  | inr (d, z) ↦ elim (Option-cases (entry_of s d page)) [
    | inl y ↦ rw (z, clock) (rw (y) tt)
    | inr (e, y) ↦
        rw (z, clock)
          (rw (y) (
            choose e.accessed (not e.user) (clock n (s.lru.next page) (give_chance d page e s))
              (then_do (remove_page e.number s) (λ _ s'. clock n (some page) s'))
              (clock-NoneFree n (s.lru.next page) (give_chance d page e s) q)
              (Post-then_do (λ _ s'. NoneFree s') (λ _ s'. NoneFree s') (remove_page e.number s)
                (λ _ s'. clock n (some page) s') (remove_page-Post NoneFree e.number s (λ l. q))
                (λ _ s' q'. clock-NoneFree n (some page) s' q'))))
  ]
]
  where
    choose :
        (b c : Bool) (r r' : Result ℕ)
        → Post (λ _ s'. NoneFree s') r
        → Post (λ _ s'. NoneFree s') r'
        → Post (λ _ s'. NoneFree s') (if b then r else if c then r' else returns page s)
    choose true c r r' h h' = h
    choose false true r r' h h' = h'
    choose false false r r' h h' = q

-- Once no frame is free, `kalloc` does not return one, however often it tries and however many rounds
-- its search for a victim is given: what it reclaims is not freed.
pub kalloc_never_returns :
    (tries rounds : ℕ) (s : State) → NoneFree s → Post (λ _ _. ⊥) (kalloc tries rounds s)
unfolding kalloc reclaim select_victim
kalloc_never_returns zero rounds s q = tt
kalloc_never_returns (suc tries) rounds s q =
    rw (q, kalloc)
      (Post-then_do (λ _ s'. NoneFree s') (λ _ _. ⊥) (reclaim rounds s)
        (λ _ s'. kalloc tries rounds s')
        (Post-then_do (λ _ s'. NoneFree s') (λ _ s'. NoneFree s') (select_victim rounds s)
          (λ victim s'. swapout victim s') (clock-NoneFree rounds s.lru.page_lru_head s q)
          (λ victim s' q'. swapout-NoneFree victim s' q'))
        (λ _ s' q'. kalloc_never_returns tries rounds s' q'))
