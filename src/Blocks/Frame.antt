-- ===== src/Blocks/Frame.antt =====
-- What `balloc` of xv6-public/fs.c leaves as it was.
use os.Base.{
  ℕ, ◌+◌, ◌-◌, ◌/◌, ◌%◌, ◌<◌, ◌≡◌, ◌≢◌, refl, sym, ◌∙◌, subst, true, false, ◌&&◌, Option, none,
  some, ◌==◌, arith, ==_iff, Bool-cases, Option-cases, inl, inr,
}
use os.Blocks.Defs.{bpb, Fs, bblock, bzero, write_block, write_bit, scan_bitmap, balloc}
use os.Blocks.Allocation.{in_use, scan_bitmap-aligned}

-- The layout is the same, only the new block and its block of the bitmap change, and what was in use
-- still is.
pub record Keeps (y : ℕ) (s s' : Fs) : Type 0 where
  pub same_size : s'.size ≡ s.size
  pub same_start : s'.bmapstart ≡ s.bmapstart
  pub same_blocks : (x : ℕ) → x ≢ y → x ≢ bblock y s → s'.blocks x ≡ s.blocks x
  pub still_used : (x : ℕ) → bblock x s ≢ y → in_use s x ≡ true → in_use s' x ≡ true
  pub used_before : (x : ℕ) → x ≢ y → bblock x s ≢ y → in_use s' x ≡ true → in_use s x ≡ true

abbrev pub KeepsAll : Fs → Option (ℕ × Fs) → Type 0
KeepsAll s none = Unit
KeepsAll s (some (y, s')) = Keeps y s s'

-- The state after the two writes of `balloc`.
abbrev taken : ℕ → ℕ → Fs → Fs
taken b bi s =
    bzero (b + bi) (write_block (bblock b s) (write_bit (s.blocks (bblock b s)) bi true) s)

differ : {x y : ℕ} → x ≢ y → x == y ≡ false
differ {x} {y} ne = ground arith

taken-Keeps :
    (b bi : ℕ) (s : Fs)
    → bblock (b + bi) s ≡ bblock b s
    → b % bpb ≡ 0
    → bi < bpb
    → Keeps (b + bi) s (taken b bi s)
taken-Keeps b bi s same aligned small = record {
  same_size = refl;
  same_start = refl;
  same_blocks = λ x ne ne'. rw (differ ne, differ (λ e. ne' (e ∙ sym same))) refl;
  still_used = λ x ne used. rw (differ ne) (elim (Bool-cases (bblock x s == bblock b s)) [
    | inr z ↦ rw (z) used
    | inl z ↦ rw (z) (elim (Bool-cases (x % bpb / 8 == bi / 8 && x % bpb % 8 == bi % 8)) [
      | inl y ↦ rw (y) refl
      | inr y ↦ rw (y) (
          subst (λ n. s.blocks n (x % bpb / 8) (x % bpb % 8) ≡ true)
            ((==_iff (bblock x s) (bblock b s)).0 z) used)
    ])
  ]);
  used_before = λ x other ne used. elim (Bool-cases (bblock x s == bblock b s)) [
    | inr z ↦ sym (rw (differ ne, z) refl) ∙ used
    | inl z ↦ elim (Bool-cases (x % bpb / 8 == bi / 8 && x % bpb % 8 == bi % 8)) [
      | inl y ↦ absurd (other (here x z y))
      | inr y ↦
          subst (λ n. s.blocks n (x % bpb / 8) (x % bpb % 8) ≡ true)
            (sym ((==_iff (bblock x s) (bblock b s)).0 z)) (sym (rw (differ ne, z, y) refl) ∙ used)
    ]
  ];
}
  where
    here :
        (x : ℕ)
        → (x / bpb + s.bmapstart == b / bpb + s.bmapstart) ≡ true
        → (x % bpb / 8 == bi / 8 && x % bpb % 8 == bi % 8) ≡ true
        → x ≡ b + bi
    here x z y = ground arith

pub balloc-KeepsAll : (s : Fs) → KeepsAll s (balloc s)
unfolding balloc
balloc-KeepsAll s =
    let rounds = (s.size + bpb - 1) / bpb in
    elim (Option-cases (scan_bitmap rounds 0 s)) [
      | inl z ↦ rw (z, balloc) tt
      | inr ((b, bi), z) ↦
          let (aligned, small) = scan_bitmap-aligned rounds 0 s (b, bi) (omega arith) z in
          rw (z, balloc) (taken-Keeps b bi s (omega arith) aligned small)
    ]
