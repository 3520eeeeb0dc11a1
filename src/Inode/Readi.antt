-- ===== src/Inode/Readi.antt =====
-- What `readi` of xv6-public/fs.c reads of a file.
use os.Base.{
  ℕ, zero, suc, ◌+◌, ◌-◌, ◌*◌, ◌/◌, ◌%◌, ◌≤◌, ◌<◌, ◌≡◌, ◌≢◌, refl, sym, ap, ◌∙◌, inl, inr, true,
  false, ◌||◌, Option, none, some, List, [], ◌∷◌, ◌++◌, ltb, leb, if◌then◌else◌, min, Bool-cases,
  arith, minus_one, pos,
}
use os.Blocks.Defs.{Fs}
use os.Inode.Defs.{ndirect, nindirect, Inode, bmap}
use os.Inode.Slots.{WellFormed, slot}
use os.Inode.Bmap.{Maps, bmap-Maps}
use os.Inode.Access.{bsize, Byte, copy_out, read_blocks, readi}

-- The bytes of a file from a position on.
unfoldable pub file_bytes : ℕ → ℕ → Inode → Fs → List Byte
file_bytes zero p ip s = []
file_bytes (suc n) p ip s = s.blocks (slot ip s (p / bsize)) (p % bsize) ∷ file_bytes n (p + 1) ip s

-- Every block of the file is there.
pub record IsWhole (ip : Inode) (s : Fs) : Type 0 where
  pub ok : WellFormed ip s
  pub bounded : ip.size ≤ (ndirect + nindirect) * bsize
  pub filled : (p : ℕ) → p < ip.size → slot ip s (p / bsize) ≢ 0

file_bytes-append :
    (m n p : ℕ) (ip : Inode) (s : Fs)
    → file_bytes (m + n) p ip s ≡ file_bytes m p ip s ++ file_bytes n (p + m) ip s
unfolding file_bytes
file_bytes-append zero n p ip s =
    let here : p ≡ p + 0 = omega arith in
    let none_more : 0 + n ≡ n = omega arith in rw (none_more) (ap (λ q. file_bytes n q ip s) here)
file_bytes-append (suc m) n p ip s =
    let one_more : suc m + n ≡ suc (m + n) = omega arith in
    let later : p + 1 + m ≡ p + suc m = omega arith in
    rw (one_more) (
      ap (λ l. s.blocks (slot ip s (p / bsize)) (p % bsize) ∷ l)
        (file_bytes-append m n (p + 1) ip s
          ∙ ap (λ q. file_bytes m (p + 1) ip s ++ file_bytes n q ip s) later))

-- Within a block, the bytes of the file are those of the block.
copy_out-file_bytes :
    (m p : ℕ) (ip : Inode) (s : Fs)
    → p % bsize + m ≤ bsize
    → copy_out m (p % bsize) (s.blocks (slot ip s (p / bsize))) ≡ file_bytes m p ip s
unfolding copy_out file_bytes
copy_out-file_bytes zero p ip s h = refl
copy_out-file_bytes (suc zero) p ip s h = refl
copy_out-file_bytes (suc (suc m)) p ip s h =
    let next : p % bsize + 1 ≡ (p + 1) % bsize = omega arith in
    let same : p / bsize ≡ (p + 1) / bsize = omega arith in
    ap (λ l. s.blocks (slot ip s (p / bsize)) (p % bsize) ∷ l)
      (ap (λ i. copy_out (suc m) i (s.blocks (slot ip s (p / bsize)))) next
        ∙ ap (λ b. copy_out (suc m) ((p + 1) % bsize) (s.blocks (slot ip s b))) same
        ∙ copy_out-file_bytes (suc m) (p + 1) ip s (omega arith))

bmap_there :
    (n : ℕ) (ip : Inode) (s : Fs)
    → WellFormed ip s
    → n < ndirect + nindirect
    → slot ip s n ≢ 0
    → bmap n ip s ≡ some (slot ip s n, ip, s)
bmap_there n ip s ok small ne = found (bmap n ip s) (bmap-Maps n ip s ok)
  where
    together :
        {a b : ℕ} {ip1 ip2 : Inode} {s1 s2 : Fs}
        → a ≡ b
        → ip1 ≡ ip2
        → s1 ≡ s2
        → ◌≡◌ {A = Option (ℕ × Inode × Fs)} (some (a, ip1, s1)) (some (b, ip2, s2))
    together e e1 e2 = cc

    found : (r : Option (ℕ × Inode × Fs)) → Maps n ip s r → r ≡ some (slot ip s n, ip, s)
    found none (inl far) = absurd (omega arith)
    found none (inr (unset, _)) = absurd (ne unset)
    found (some (a, ip', s')) m =
        let (e, e') = m.kept ne in
        together (sym m.names ∙ ap (λ p. slot p s' n) e ∙ ap (λ t. slot ip t n) e') e e'

read_blocks_lem :
    (k off n : ℕ) (ip : Inode) (s : Fs)
    → IsWhole ip s
    → n ≤ k
    → off + n ≤ ip.size
    → read_blocks k off n ip s ≡ some (file_bytes n off ip s, ip, s)
unfolding read_blocks file_bytes
read_blocks_lem zero off n ip s w enough inside =
    let nothing : 0 ≡ n = omega arith in ap (λ m. some (file_bytes m off ip s, ip, s)) nothing
read_blocks_lem (suc k) off n ip s w enough inside = elim (Bool-cases (ltb 0 n)) [
  | inr z ↦
      let nothing : 0 ≡ n = none_left n z in
      rw (z) (ap (λ m. some (file_bytes m off ip s, ip, s)) nothing)
  | inl z ↦
      let some_left : 0 < n = left n z in
      let m = min n (bsize - off % bsize) in
      let taken : 0 < min n (bsize - off % bsize) = omega arith in
      let at : bmap (off / bsize) ip s ≡ some (slot ip s (off / bsize), ip, s) =
        bmap_there (off / bsize) ip s w.ok (omega (arith, w.bounded))
          (w.filled off (omega arith)) in
      let rest : read_blocks k (off + m) (n - m) ip s
          ≡ some (file_bytes (n - m) (off + m) ip s, ip, s) =
        read_blocks_lem k (off + m) (n - m) ip s w (omega arith) (omega arith) in
      let sum : m + (n - m) ≡ n = omega arith in
      rw (z, at, rest)
        (ap (λ l. some (l, ip, s))
          (ap (λ l. l ++ file_bytes (n - m) (off + m) ip s)
              (copy_out-file_bytes m off ip s (omega arith))
            ∙ sym (file_bytes-append m (n - m) off ip s)
            ∙ ap (λ q. file_bytes q off ip s) sum))
]
  where
    none_left : (n : ℕ) → ltb 0 n ≡ false → 0 ≡ n
    none_left n z = ground arith

    left : (n : ℕ) → ltb 0 n ≡ true → 0 < n
    left n z = ground arith

-- How many bytes a read of n from off gives.
abbrev pub available : ℕ → ℕ → Inode → ℕ
available off n ip = if ltb ip.size (off + n) then ip.size - off else n

-- For words off and n, `readi` of a well-formed inode that names all blocks of its file returns
-- the bytes of the file from off on, n or as many as there are, and changes nothing. It returns
-- -1 just if off is beyond the end or off + n is no word.
pub readi_lem :
    (off n : ℕ) (ip : Inode) (s : Fs)
    → IsWhole ip s
    → off < 4294967296
    → n < 4294967296
    → readi off n ip s ≡ (
        if ltb ip.size off || leb 4294967296 (off + n)
        then some (minus_one, [], ip, s)
        else some (pos (available off n ip), file_bytes (available off n ip) off ip s, ip, s))
unfolding readi
readi_lem off n ip s w small small' =
    elim (Bool-cases (ltb ip.size off || leb 4294967296 (off + n))) [
      | inl z ↦ rw (z, refused z) refl
      | inr z ↦
          let sum : (off + n) % 4294967296 ≡ off + n = word z in
          rw
            (
              z,
              sum,
              fine z,
              read_blocks_lem (available off n ip) off (available off n ip) ip s w (omega arith)
                  (fits z),
            )
            (rw (sum) refl)
    ]
  where
    refused :
        (ltb ip.size off || leb 4294967296 (off + n)) ≡ true
        → (ltb ip.size off || ltb ((off + n) % 4294967296) off) ≡ true
    refused z = ground arith

    word : (ltb ip.size off || leb 4294967296 (off + n)) ≡ false → (off + n) % 4294967296 ≡ off + n
    word z = ground arith

    fine :
        (ltb ip.size off || leb 4294967296 (off + n)) ≡ false
        → (ltb ip.size off || ltb (off + n) off) ≡ false
    fine z = ground arith

    fits :
        (ltb ip.size off || leb 4294967296 (off + n)) ≡ false
        → off + (if ltb ip.size (off + n) then ip.size - off else n) ≤ ip.size
    fits z = ground arith
