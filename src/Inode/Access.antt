-- ===== src/Inode/Access.antt =====
-- `readi` of xv6-public/fs.c, for an inode that is not a device.
use os.Base.{
  ℕ, zero, suc, ◌+◌, ◌-◌, ◌/◌, ◌%◌, Bool, ◌||◌, Option, none, some, List, [], ◌∷◌, ◌++◌, ltb,
  if◌then◌else◌, min, ℤ, minus_one, pos,
}
use os.Blocks.Defs.{Block, Fs}
use os.Inode.Defs.{Inode, bmap}

-- BSIZE
abbrev pub bsize : ℕ
bsize = 512

-- A byte, by its bits.
abbrev pub Byte : Type 0
Byte = ℕ → Bool

-- `memmove(dst, bp->data + i, m)`: the bytes that it appends.
unfoldable pub copy_out : ℕ → ℕ → Block → List Byte
copy_out zero i d = []
copy_out (suc m) i d = d i ∷ copy_out m (i + 1) d

-- The loop of `readi` with n bytes to go, in at most k rounds; a panic is `none`.
unfoldable pub read_blocks : ℕ → ℕ → ℕ → Inode → Fs → Option (List Byte × Inode × Fs)
read_blocks zero off n ip s = some ([], ip, s)
read_blocks (suc k) off n ip s =
    let m = min n (bsize - off % bsize) in
    if ltb 0 n
    then elim (bmap (off / bsize) ip s) [
      | none ↦ none
      | some (a, ip', s') ↦ elim (read_blocks k (off + m) (n - m) ip' s') [
        | none ↦ none
        | some (bytes, ip'', s'') ↦
            some (copy_out m (off % bsize) (s'.blocks a) ++ bytes, ip'', s'')
      ]
    ]
    else some ([], ip, s)

-- `readi`: what it returns, the bytes, and the state; each round takes at least a byte.
unfoldable pub readi : ℕ → ℕ → Inode → Fs → Option (ℤ × List Byte × Inode × Fs)
readi off n ip s =
    let m = if ltb ip.size ((off + n) % 4294967296) then ip.size - off else n in
    if ltb ip.size off || ltb ((off + n) % 4294967296) off
    then some (minus_one, [], ip, s)
    else elim (read_blocks m off m ip s) [
      | none ↦ none
      | some (bytes, ip', s') ↦ some (pos m, bytes, ip', s')
    ]
