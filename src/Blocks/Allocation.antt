-- ===== src/Blocks/Allocation.antt =====
-- The search of `balloc`, xv6-public/fs.c.
use os.Base.{
  ℕ, zero, suc, ◌+◌, ◌-◌, ◌*◌, ◌/◌, ◌%◌, ◌≤◌, ◌<◌, ◌≡◌, ◌≢◌, refl, sym, ap, ◌∙◌, subst, Bool, true,
  false, Option, none, some, [], ◌∷◌, ◌++◌, ◌==◌, ltb, arith, ==_iff, Bool-cases, Option-cases, inl,
  inr,
}
use os.Blocks.Defs.{bpb, Fs, bblock, scan_block, scan_bitmap, balloc}

-- The bit for block x in the bitmap.
abbrev pub in_use : Fs → ℕ → Bool
in_use s x = s.blocks (bblock x s) (x % bpb / 8) (x % bpb % 8)

-- What a scan of the blocks from `low` to before `high` finds: the first free one of the disk.
abbrev pub Finds : ℕ → ℕ → Fs → Option ℕ → Type 0
Finds low high s none = (x : ℕ) → low ≤ x → x < high → x < s.size → in_use s x ≡ true
Finds low high s (some y) =
    (low ≤ y)
    × (y < high)
    × (y < s.size)
    × (in_use s y ≡ false)
    × ((x : ℕ) → low ≤ x → x < y → in_use s x ≡ true)

abbrev pub at_block : ℕ → Option ℕ → Option ℕ
at_block b none = none
at_block b (some bi) = some (b + bi)

-- The bit that the inner loop reads.
in_use_lem :
    (s : Fs) (b bi : ℕ)
    → b % bpb ≡ 0
    → bi < bpb
    → s.blocks (bblock b s) (bi / 8) (bi % 8) ≡ in_use s (b + bi)
in_use_lem s b bi aligned small =
    let block : bblock b s ≡ bblock (b + bi) s = omega arith in
    let bit : bi ≡ (b + bi) % bpb = omega arith in
    ap (λ n. s.blocks n (bi / 8) (bi % 8)) block
    ∙ ap (λ i. s.blocks (bblock (b + bi) s) (i / 8) (i % 8)) bit

later :
    (low high : ℕ) (s : Fs) (o : Option ℕ)
    → in_use s low ≡ true
    → Finds (low + 1) high s o
    → Finds low high s o
later low high s none here used = λ x l h inside. elim (Bool-cases (x == low)) [
  | inl z ↦ subst (λ y. in_use s y ≡ true) (sym ((==_iff x low).0 z)) here
  | inr z ↦ used x (ground arith) h inside
]
later low high s (some y) here (l, h, inside, free, used) = (
  omega arith,
  h,
  inside,
  free,
  λ x l' h'. elim (Bool-cases (x == low)) [
    | inl z ↦ subst (λ y. in_use s y ≡ true) (sym ((==_iff x low).0 z)) here
    | inr z ↦ used x (ground arith) h'
  ],
)

scan_block-Finds :
    (n b bi : ℕ) (s : Fs)
    → b % bpb ≡ 0
    → bi + n ≤ bpb
    → Finds (b + bi) (b + bi + n) s (at_block b (scan_block n b bi s))
unfolding scan_block
scan_block-Finds zero b bi s aligned small = λ x l h inside. absurd (omega arith)
scan_block-Finds (suc n) b bi s aligned small = elim (Bool-cases (ltb (b + bi) s.size)) [
  | inr z ↦ rw (z, scan_block) (λ x l h inside. absurd (ground arith))
  | inl z ↦
      let bit = in_use_lem s b bi aligned (omega arith) in
      elim (Bool-cases (s.blocks (bblock b s) (bi / 8) (bi % 8))) [
        | inr y ↦
            rw (z, scan_block)
              (rw (y) (
                omega arith,
                omega arith,
                (ground arith),
                sym bit ∙ y,
                λ x l h. absurd (omega arith),
              ))
        | inl y ↦
            let next : b + (bi + 1) ≡ b + bi + 1 = omega arith in
            let end : b + bi + 1 + n ≡ b + bi + suc n = omega arith in
            rw (z, scan_block)
              (rw (y) (
                later (b + bi) (b + bi + suc n) s (at_block b (scan_block n b (bi + 1) s))
                  (sym bit ∙ y)
                  (subst (λ e. Finds (b + bi + 1) e s (at_block b (scan_block n b (bi + 1) s))) end
                    (subst (λ l. Finds l (l + n) s (at_block b (scan_block n b (bi + 1) s))) next
                      (scan_block-Finds n b (bi + 1) s aligned (omega arith))))))
      ]
]

abbrev pub block_of : Option (ℕ × ℕ) → Option ℕ
block_of none = none
block_of (some (b, bi)) = some (b + bi)

join :
    (low middle high : ℕ) (s : Fs) (o : Option ℕ)
    → low ≤ middle
    → Finds low middle s none
    → Finds middle high s o
    → Finds low high s o
join low middle high s none le used more = λ x l h inside. elim (Bool-cases (ltb x middle)) [
  | inl z ↦ used x l (ground arith) inside
  | inr z ↦ more x (ground arith) h inside
]
join low middle high s (some y) le used (l, h, inside, free, more) = (
  omega arith,
  h,
  inside,
  free,
  λ x l' h'. elim (Bool-cases (ltb x middle)) [
    | inl z ↦ used x l' (ground arith) (omega arith)
    | inr z ↦ more x (ground arith) h'
  ],
)

widen :
    (low high higher y : ℕ) (s : Fs)
    → high ≤ higher
    → Finds low high s (some y)
    → Finds low higher s (some y)
widen low high higher y s le (l, h, inside, free, used) = (l, omega arith, inside, free, used)

scan_bitmap-Finds :
    (k b : ℕ) (s : Fs) → b % bpb ≡ 0 → Finds b (b + k * bpb) s (block_of (scan_bitmap k b s))
unfolding scan_bitmap
scan_bitmap-Finds zero b s aligned = λ x l h inside. absurd (omega arith)
scan_bitmap-Finds (suc k) b s aligned =
    let start : b + 0 ≡ b = omega arith in
    let first =
      subst (λ l. Finds l (l + bpb) s (at_block b (scan_block bpb b 0 s))) start
        (scan_block-Finds bpb b 0 s aligned (omega arith)) in
    let end : b + bpb + k * bpb ≡ b + suc k * bpb = omega arith in
    elim (Option-cases (scan_block bpb b 0 s)) [
      | inr (bi, z) ↦
          rw (z, scan_bitmap)
            (widen b (b + bpb) (b + suc k * bpb) (b + bi) s (omega arith)
              (subst (λ o. Finds b (b + bpb) s (at_block b o)) z first))
      | inl z ↦
          rw (z, scan_bitmap)
            (join b (b + bpb) (b + suc k * bpb) s (block_of (scan_bitmap k (b + bpb) s))
              (omega arith) (subst (λ o. Finds b (b + bpb) s (at_block b o)) z first)
              (subst (λ e. Finds (b + bpb) e s (block_of (scan_bitmap k (b + bpb) s))) end
                (scan_bitmap-Finds k (b + bpb) s (omega arith))))
    ]

same_pair : (p q : ℕ × ℕ) → some p ≡ some q → p ≡ q
same_pair p q e = cc

pub scan_bitmap-aligned :
    (k b : ℕ) (s : Fs) (p : ℕ × ℕ)
    → b % bpb ≡ 0
    → scan_bitmap k b s ≡ some p
    → (p.0 % bpb ≡ 0) × (p.1 < bpb)
unfolding scan_bitmap
scan_bitmap-aligned zero b s p aligned e = cc
scan_bitmap-aligned (suc k) b s p aligned e = elim (Option-cases (scan_block bpb b 0 s)) [
  | inl z ↦ scan_bitmap-aligned k (b + bpb) s p (omega arith) (sym (rw (z, scan_bitmap) refl) ∙ e)
  | inr (bi, z) ↦
      let at = same_pair (b, bi) p (sym (rw (z, scan_bitmap) refl) ∙ e) in
      let (low, high, _, _, _) =
        subst (λ o. Finds (b + 0) (b + 0 + bpb) s (at_block b o)) z
          (scan_block-Finds bpb b 0 s aligned (omega arith)) in
      let small : bi < bpb = omega arith in
      subst (λ q. (q.0 % bpb ≡ 0) × (q.1 < bpb)) at (aligned, small)
]

-- What `balloc` leaves: the lowest free block of the disk, full of zeros, and given to the log after
-- its block of the bitmap. It panics just if no block of the disk is free.
abbrev pub Allocates : Fs → Option (ℕ × Fs) → Type 0
Allocates s none = (x : ℕ) → x < s.size → in_use s x ≡ true
Allocates s (some (y, s')) =
    (y < s.size)
    × (in_use s y ≡ false)
    × ((x : ℕ) → x < y → in_use s x ≡ true)
    × (s'.blocks y ≡ (λ _ _. false))
    × (bblock y s ≢ y → in_use s' y ≡ true)
    × (s'.logged ≡ (s.logged ++ (bblock y s ∷ [])) ++ (y ∷ []))

-- `balloc` allocates the lowest free block of the disk, zeroed, and logs its block of the bitmap and
-- then the block; it panics only if no block is free.
pub balloc-Allocates : (s : Fs) → Allocates s (balloc s)
unfolding balloc
balloc-Allocates s =
    let rounds = (s.size + bpb - 1) / bpb in
    let found = scan_bitmap-Finds rounds 0 s (omega arith) in
    elim (Option-cases (scan_bitmap rounds 0 s)) [
      | inl z ↦
          let all = subst (λ o. Finds 0 (0 + rounds * bpb) s (block_of o)) z found in
          rw (z, balloc) (λ x h. all x (omega arith) (omega arith) h)
      | inr ((b, bi), z) ↦
          let (low, high, inside, free, used) =
            subst (λ o. Finds 0 (0 + rounds * bpb) s (block_of o)) z found in
          let (aligned, small) = scan_bitmap-aligned rounds 0 s (b, bi) (omega arith) z in
          let same : bblock (b + bi) s ≡ bblock b s = omega arith in
          let bit : (b + bi) % bpb ≡ bi = omega arith in
          rw (z, balloc)
            (
              inside,
              free,
              λ x h. used x (omega arith) h,
              rw ((==_iff (b + bi) (b + bi)).1 refl) refl,
              λ apart.
                  rw (differ apart, same, (==_iff (bblock b s) (bblock b s)).1 refl, bit)
                    (rw ((==_iff (bi / 8) (bi / 8)).1 refl, (==_iff (bi % 8) (bi % 8)).1 refl)
                      refl),
              ap (λ n. (s.logged ++ (n ∷ [])) ++ ((b + bi) ∷ [])) (sym same),
            )
    ]
  where
    differ : {x y : ℕ} → x ≢ y → x == y ≡ false
    differ {x} {y} ne = ground arith
