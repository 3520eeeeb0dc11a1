-- ===== src/Inode/Defs.antt =====
-- `bmap` of xv6-public/fs.c over the blocks of a disk and its bitmap.
use os.Base.{
  ℕ, zero, suc, ◌+◌, ◌-◌, ◌*◌, ◌/◌, ◌%◌, Bool, Option, none, some, ◌==◌, ltb, if◌then◌else◌,
}
use os.Blocks.Defs.{Block, Fs, write_block, balloc}

-- NDIRECT and NINDIRECT
abbrev pub ndirect : ℕ
ndirect = 12

abbrev pub nindirect : ℕ
nindirect = 128

-- `size` and `addrs` of a `struct inode`; `addrs` by position.
pub record Inode : Type 0 where
  pub size : ℕ
  pub addrs : ℕ → ℕ

-- The number with the bits f 0 to f (n - 1), and bit k of a number.
unfoldable pub value : ℕ → (ℕ → Bool) → ℕ
value zero f = 0
value (suc n) f = (if f 0 then 1 else 0) + 2 * value n (λ k. f (suc k))

unfoldable pub bit : ℕ → ℕ → Bool
bit zero w = w % 2 == 1
bit (suc k) w = bit k (w / 2)

-- `a[j]` of the words of a block, and `a[j] = w`.
unfoldable pub word_at : Block → ℕ → ℕ
word_at d j = value 32 (λ k. d (4 * j + k / 8) (k % 8))

unfoldable pub put_word : ℕ → ℕ → Block → Block
put_word j w d i k = if i / 4 == j then bit (i % 4 * 8 + k) w else d i k

abbrev pub set_addr : ℕ → ℕ → Inode → Inode
set_addr i a ip = record ip { addrs = λ x. if x == i then a else ip.addrs x }

-- `ip->addrs[i]`, allocated if it is 0; a panic of `balloc` is `none`.
unfoldable pub own_addr : ℕ → Inode → Fs → Option (ℕ × Inode × Fs)
own_addr i ip s =
    if ip.addrs i == 0
    then elim (balloc s) [ none ↦ none | some (a, s') ↦ some (a, set_addr i a ip, s') ]
    else some (ip.addrs i, ip, s)

-- The entry j of the indirect block, allocated if it is 0.
unfoldable pub indirect_addr : ℕ → ℕ → Inode → Fs → Option (ℕ × Inode × Fs)
indirect_addr j ind ip s =
    if word_at (s.blocks ind) j == 0
    then elim (balloc s) [
      | none ↦ none
      | some (a, s') ↦ some (a, ip, write_block ind (put_word j a (s'.blocks ind)) s')
    ]
    else some (word_at (s.blocks ind) j, ip, s)

-- `bmap`; a panic is `none`.
unfoldable pub bmap : ℕ → Inode → Fs → Option (ℕ × Inode × Fs)
bmap bn ip s =
    if ltb bn ndirect
    then own_addr bn ip s
    else if ltb (bn - ndirect) nindirect
    then elim (own_addr ndirect ip s) [
      | none ↦ none
      | some (ind, ip', s') ↦ indirect_addr (bn - ndirect) ind ip' s'
    ]
    else none
