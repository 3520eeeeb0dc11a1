-- ===== src/Blocks/Defs.antt =====
-- `bzero`, `balloc` and `bfree` of xv6-public/fs.c.
use os.Base.{
  ℕ, zero, suc, ◌+◌, ◌-◌, ◌/◌, ◌%◌, Bool, true, false, ◌&&◌, not, Option, none, some, List, [], ◌∷◌,
  ◌++◌, ◌==◌, ltb, if◌then◌else◌,
}

-- BPB
abbrev pub bpb : ℕ
bpb = 4096

-- The bytes of a block, each by its bits.
abbrev pub Block : Type 0
Block = ℕ → ℕ → Bool

-- The blocks as `bread` finds them, the two fields of the superblock that count here, and the blocks
-- given to `log_write`, in order.
pub record Fs : Type 0 where
  pub size : ℕ
  pub bmapstart : ℕ
  pub blocks : ℕ → Block
  pub logged : List ℕ

-- A changed block with its `log_write`.
abbrev pub write_block : ℕ → Block → Fs → Fs
write_block n v s = record s {
  blocks = λ x. if x == n then v else s.blocks x;
  logged = s.logged ++ (n ∷ []);
}

abbrev pub bzero : ℕ → Fs → Fs
bzero bno s = write_block bno (λ _ _. false) s

-- BBLOCK
abbrev pub bblock : ℕ → Fs → ℕ
bblock b s = b / bpb + s.bmapstart

-- The bit `1 << (bi % 8)` of the byte `bi / 8` set to v.
abbrev pub write_bit : Block → ℕ → Bool → Block
write_bit d bi v j k = if j == bi / 8 && k == bi % 8 then v else d j k

-- The inner loop of `balloc` in the block of the bitmap for b, with n rounds left: the first free
-- bit.
unfoldable pub scan_block : ℕ → ℕ → ℕ → Fs → Option ℕ
scan_block zero b bi s = none
scan_block (suc n) b bi s =
    let rest = scan_block n b (bi + 1) s in
    if ltb (b + bi) s.size
    then (if not (s.blocks (bblock b s) (bi / 8) (bi % 8)) then some bi else rest)
    else none

-- The two loops, with k rounds of the outer one left: where they find a free bit.
unfoldable pub scan_bitmap : ℕ → ℕ → Fs → Option (ℕ × ℕ)
scan_bitmap zero b s = none
scan_bitmap (suc k) b s = elim (scan_block bpb b 0 s) [
  | some bi ↦ some (b, bi)
  | none ↦ scan_bitmap k (b + bpb) s
]

-- `balloc`; its panic is `none`.
unfoldable pub balloc : Fs → Option (ℕ × Fs)
balloc s = elim (scan_bitmap ((s.size + bpb - 1) / bpb) 0 s) [
  | none ↦ none
  | some (b, bi) ↦ some (
    b + bi,
    bzero (b + bi) (write_block (bblock b s) (write_bit (s.blocks (bblock b s)) bi true) s),
  )
]

-- `bfree`; its panic is `none`.
unfoldable pub bfree : ℕ → Fs → Option Fs
bfree b s =
    let bi = b % bpb in
    let d = s.blocks (bblock b s) in
    if not (d (bi / 8) (bi % 8))
    then none
    else some (write_block (bblock b s) (write_bit d bi false) s)
