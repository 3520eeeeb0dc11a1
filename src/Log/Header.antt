-- ===== src/Log/Header.antt =====
-- The header of the log in its block, written and read back by the loops of xv6-public/log.c.
use os.Base.{ℕ, ◌+◌, ◌^◌, ◌≤◌, ◌<◌, ◌≡◌, refl, ◌∙◌, true, List, [], ◌∷◌, arith, length, All, ltb}
use os.Log.Defs.{
  u32, log_size, block_words, BlockWords, read_entries, read_header, write_entries, write_header,
}

module _ {B : Type 0} (c : BlockWords B) where
  -- The loop leaves the words up to that of its first entry.
  word-write_entries :
      (i : ℕ) (xs : List ℕ) (b : B) (j : ℕ)
      → j ≤ i
      → i + length xs < block_words
      → c.word (write_entries c i xs b) j ≡ c.word b j
  unfolding write_entries
  word-write_entries i [] b j low h = refl
  word-write_entries i (x ∷ xs) b j low h =
      word-write_entries (i + 1) xs (c.put b (i + 1) x) j (omega arith) (omega arith)
      ∙ c.word-put_ne b j (i + 1) x (omega arith) (omega arith) (λ e. omega arith)

  read_entries-write_entries :
      (i : ℕ) (xs : List ℕ) (b : B)
      → i + length xs < block_words
      → All (λ x. x < u32) xs
      → read_entries c (length xs) i (write_entries c i xs b) ≡ xs
  unfolding read_entries write_entries
  read_entries-write_entries i [] b h a = refl
  read_entries-write_entries i (x ∷ xs) b h (small, a) =
      let here : c.word (write_entries c (i + 1) xs (c.put b (i + 1) x)) (i + 1) ≡ x =
        word-write_entries (i + 1) xs (c.put b (i + 1) x) (i + 1) (omega arith) (omega arith)
        ∙ c.word-put_eq b (i + 1) x (omega arith) small in
      let rest = read_entries-write_entries (i + 1) xs (c.put b (i + 1) x) (omega arith) a in
      rw (here, rest) refl

  -- A header that is written is read back, whatever the block held before.
  pub read_header-write_header :
      (lh : List ℕ) (b : B)
      → length lh ≤ log_size
      → All (λ x. x < u32) lh
      → read_header c (write_header c lh b) ≡ lh
  unfolding read_header write_header
  read_header-write_header lh b few a =
      let count : c.word (write_entries c 0 lh (c.put b 0 (length lh))) 0 ≡ length lh =
        word-write_entries 0 lh (c.put b 0 (length lh)) 0 (omega arith) (omega arith)
        ∙ c.word-put_eq b 0 (length lh) (omega arith) (omega arith) in
      let positive : ltb (length lh) (2 ^ 31) ≡ true = ground arith in
      rw (count)
        (rw (positive) (read_entries-write_entries 0 lh (c.put b 0 (length lh)) (omega arith) a))
