-- ===== src/Log/Defs.antt =====
-- The state and the functions of xv6-public/log.c.
use os.Base.{
  ℕ, zero, suc, ◌+◌, ◌-◌, ◌*◌, ◌^◌, ◌<◌, ◌≡◌, ◌≢◌, Bool, true, false, ◌||◌, Option, none, some,
  List, [], ◌∷◌, ◌++◌, length, ltb, leb, ◌==◌, if◌then◌else◌,
}

-- MAXOPBLOCKS and LOGSIZE of param.h.
abbrev pub max_op_blocks : ℕ
max_op_blocks = 10

abbrev pub log_size : ℕ
log_size = 30

abbrev pub u32 : ℕ
u32 = 2 ^ 32

-- The words of a block, BSIZE / sizeof(int).
abbrev pub block_words : ℕ
block_words = 128

-- The bytes of a block as words, as the C compiler reads and writes an `int` there.
pub record BlockWords (B : Type 0) : Type 0 where
  pub word : B → ℕ → ℕ
  pub put : B → ℕ → ℕ → B
  pub word-put_eq : (b : B) (i v : ℕ) → i < block_words → v < u32 → word (put b i v) i ≡ v
  pub word-put_ne :
      (b : B) (i j v : ℕ)
      → i < block_words
      → j < block_words
      → i ≢ j
      → word (put b j v) i ≡ word b i

-- `struct log`, the disk and the buffers with B_DIRTY. `lh` is `lh.block[0..n)`. A clean buffer is
-- as its block on disk, so only dirty ones are kept here. `power` is the number of disk writes that
-- are still carried out before the power fails.
pub record State (B : Type 0) : Type 0 where
  pub start : ℕ
  pub size : ℕ
  pub outstanding : ℕ
  pub committing : Bool
  pub lh : List ℕ
  pub disk : ℕ → B
  pub dirty : ℕ → Option B
  pub power : ℕ

-- A map with one value given anew.
abbrev pub update : {A : Type 0} → (ℕ → A) → ℕ → A → ℕ → A
update f a v x = if x == a then v else f x

abbrev pub has : ℕ → List ℕ → Bool
has b [] = false
has b (x ∷ xs) = (b == x) || has b xs

module _ {B : Type 0} where
  -- The data of the buffer that `bread` returns.
  unfoldable pub bread : State B → ℕ → B
  bread s a = elim (s.dirty a) [ none ↦ s.disk a | some v ↦ v ]

  -- `bwrite` of a buffer whose data is `v`: the buffer is clean, and without power nothing happens.
  unfoldable pub bwrite : ℕ → B → State B → State B
  bwrite a v s =
      if s.power == 0
      then s
      else record s { disk = update s.disk a v; dirty = update s.dirty a none; power = s.power - 1 }

  -- The loop of `install_trans`, for the blocks of the header from index `tail` on.
  unfoldable pub install_from : ℕ → List ℕ → State B → State B
  unfolding bread bwrite
  install_from tail [] s = s
  install_from tail (b ∷ bs) s =
      install_from (suc tail) bs (bwrite b (bread s (s.start + tail + 1)) s)

  -- `install_trans`
  unfoldable pub install_trans : State B → State B
  unfolding install_from
  install_trans s = install_from 0 s.lh s

  -- The loop of `write_log`.
  unfoldable pub write_from : ℕ → List ℕ → State B → State B
  unfolding bread bwrite
  write_from tail [] s = s
  write_from tail (b ∷ bs) s = write_from (suc tail) bs (bwrite (s.start + tail + 1) (bread s b) s)

  -- `write_log`
  unfoldable pub write_log : State B → State B
  unfolding write_from
  write_log s = write_from 0 s.lh s

  -- The test and the scan of `log_write` for the buffer of block `b`, whose data is now `v`. The
  -- results of its two panics are `none`.
  unfoldable pub log_write : ℕ → B → State B → Option (State B)
  log_write b v s =
      if leb log_size (length s.lh) || leb (s.size - 1) (length s.lh) || ltb s.outstanding 1
      then none
      else some (record s {
        lh = if has b s.lh then s.lh else s.lh ++ (b ∷ []);
        dirty = update s.dirty b (some v);
      })

  -- One round of the loop of `begin_op`; `none` when it sleeps.
  unfoldable pub begin_op : State B → Option (State B)
  begin_op s =
      if s.committing
      then none
      else if ltb log_size (length s.lh + (s.outstanding + 1) * max_op_blocks)
      then none
      else some (record s { outstanding = s.outstanding + 1 })

  -- What `end_op` does under the lock: whether it has to commit. `none` is the panic. It is called
  -- by one of the `outstanding` operations, so the count is not 0.
  unfoldable pub end_op : State B → Option (Bool × State B)
  end_op s =
      if s.committing
      then none
      else if s.outstanding == 1
      then some (true, record s { outstanding = s.outstanding - 1; committing = true })
      else some (false, record s { outstanding = s.outstanding - 1 })

  -- `struct logheader` in a block: `n`, and then `block[0]`, `block[1]`, …
  module _ (c : BlockWords B) where
    -- The loop of `read_head` over n entries from index i on.
    unfoldable pub read_entries : (n i : ℕ) → B → List ℕ
    read_entries zero i b = []
    read_entries (suc n) i b = c.word b (i + 1) ∷ read_entries n (i + 1) b

    -- What `read_head` takes from the block: no entry if `n` is negative as an `int`. That the log
    -- has room for n entries is not tested.
    unfoldable pub read_header : B → List ℕ
    unfolding read_entries
    read_header b = read_entries (if ltb (c.word b 0) (2 ^ 31) then c.word b 0 else 0) 0 b

    -- The loop of `write_head` over the entries from index i on.
    unfoldable pub write_entries : ℕ → List ℕ → B → B
    write_entries i [] b = b
    write_entries i (x ∷ xs) b = write_entries (i + 1) xs (c.put b (i + 1) x)

    -- What `write_head` makes of the block that it has read.
    unfoldable pub write_header : List ℕ → B → B
    unfolding write_entries
    write_header lh b = write_entries 0 lh (c.put b 0 (length lh))

    -- `read_head`
    unfoldable pub read_head : State B → State B
    unfolding bread read_header
    read_head s = record s { lh = read_header (bread s s.start) }

    -- `write_head`
    unfoldable pub write_head : State B → State B
    unfolding bwrite bread write_header
    write_head s = bwrite s.start (write_header s.lh (bread s s.start)) s

    -- `recover_from_log`
    unfoldable pub recover_from_log : State B → State B
    unfolding read_head install_trans write_head
    recover_from_log s = write_head (record (install_trans (read_head s)) { lh = [] })

    -- `commit`
    unfoldable pub commit : State B → State B
    unfolding write_log write_head install_trans
    commit s =
        if ltb 0 (length s.lh)
        then write_head (record (install_trans (write_head (write_log s))) { lh = [] })
        else s

    -- What the last `end_op` of a group does when it has to commit.
    unfoldable pub finish_commit : State B → State B
    unfolding commit
    finish_commit s = record (commit s) { committing = false }

    -- `initlog` after a restart: nothing is left in memory, and `power` more writes are carried out.
    unfoldable pub initlog : (start size power : ℕ) → (ℕ → B) → State B
    unfolding recover_from_log
    initlog start size power disk = recover_from_log (record {
      start = start;
      size = size;
      outstanding = 0;
      committing = false;
      lh = [];
      disk = disk;
      dirty = λ _. none;
      power = power;
    })
