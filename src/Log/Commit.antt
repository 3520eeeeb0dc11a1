-- ===== src/Log/Commit.antt =====
-- A commit cut off by a power failure, and the recovery after it.
use os.Base.{
  ℕ, suc, ◌+◌, ◌-◌, ◌≤◌, ◌<◌, ◌≡◌, refl, sym, ap, subst, ◌∙◌, ◌⊎◌, inl, inr, true, false, none,
  some, List, [], ◌∷◌, arith, length, get_elem?, ◌==◌, if◌then◌else◌, Bool-cases, ==_iff, lt→ltb,
}
use os.Log.Defs.{
  BlockWords, State, update, has, bread, bwrite, install_trans, write_from, write_log, write_head,
  read_header, write_header, commit, initlog,
}
use os.Log.Header.{read_header-write_header}
use os.Log.Disk.{
  Outside, Clean, Committed, LogFlushed, IsNamed, Installing, update_self, update_ne, get_elem?-has,
  lt-length,
}
use os.Log.Crash.{
  bwrite_dead, power-bwrite, install_from_dead, install_and_clear_lem, write_head_dead,
  initlog-Committed, initlog-Clean,
}

-- What the file system sees after a commit: the buffers of the named blocks, and the disk.
abbrev pub committed_view : {B : Type 0} → State B → ℕ → B
committed_view s b = if has b s.lh then bread s b else s.disk b

module _ {B : Type 0} (c : BlockWords B) where
  -- Between two transactions the header on disk is empty and no buffer of the log's area is dirty.
  pub record IsQuiet (s : State B) : Type 0 where
    pub header : read_header c (s.disk s.start) ≡ []
    pub flushed : LogFlushed s.start s.size s
    pub named : IsNamed s.start s.size s.lh

  module _ (s₀ : State B) (q : IsQuiet s₀) where
    -- What holds while the log blocks are written: only they change.
    record Writing (s : State B) : Type 0 where
      start_eq : s.start ≡ s₀.start
      lh_eq : s.lh ≡ s₀.lh
      header_kept : s.disk s₀.start ≡ s₀.disk s₀.start
      disk_kept : (b : ℕ) → Outside s₀.start s₀.size b → s.disk b ≡ s₀.disk b
      dirty_kept : (b : ℕ) → Outside s₀.start s₀.size b → s.dirty b ≡ s₀.dirty b
      flushed : LogFlushed s₀.start s₀.size s

    -- The first `n` log blocks are written.
    abbrev Logged : ℕ → State B → Type 0
    Logged n s =
        (t b : ℕ)
        → t < n
        → get_elem? s₀.lh t ≡ some b
        → s.disk (s₀.start + t + 1) ≡ committed_view s₀ b

    bread-Writing :
        (s : State B) (b : ℕ) → Writing s → Outside s₀.start s₀.size b → bread s b ≡ bread s₀ b
    unfolding bread
    bread-Writing s b w o = ground (arith, w.dirty_kept b o, w.disk_kept b o)

    named_value :
        (s : State B) (t b : ℕ)
        → Writing s
        → get_elem? s₀.lh t ≡ some b
        → bread s b ≡ committed_view s₀ b
    named_value s t b w e =
        rw (get_elem?-has s₀.lh t b e) (bread-Writing s b w (q.named.outside t b e))

    log_block_bounds : (t b : ℕ) → get_elem? s₀.lh t ≡ some b → t + 1 < s₀.size
    log_block_bounds t b e = omega (arith, lt-length s₀.lh t b e, q.named.fits)

    write_one :
        (t : ℕ) (v : B) (s : State B)
        → t + 1 < s₀.size
        → Writing s
        → Writing (bwrite (s.start + t + 1) v s)
    unfolding bwrite
    write_one t v s lt w = elim (Bool-cases (s.power == 0)) [
      | inl z ↦ rw z w
      | inr z ↦ rw z (record {
        start_eq = w.start_eq;
        lh_eq = w.lh_eq;
        header_kept = update_ne s.disk _ v s₀.start (omega (arith, w.start_eq)) ∙ w.header_kept;
        disk_kept = λ b o. update_ne s.disk _ v b (omega (arith, w.start_eq)) ∙ w.disk_kept b o;
        dirty_kept =
            λ b o. update_ne s.dirty _ none b (omega (arith, w.start_eq)) ∙ w.dirty_kept b o;
        flushed = λ a lo hi. ground (arith, w.flushed a lo hi);
      })
    ]

    write_one_lem :
        (t b : ℕ) (s : State B)
        → get_elem? s₀.lh t ≡ some b
        → Writing s
        → 0 < s.power
        → Logged t s
        → Logged (suc t) (bwrite (s.start + t + 1) (bread s b) s)
    unfolding bwrite
    write_one_lem t b s e w p l u a lt f =
        let z : (s.power == 0) ≡ false = ground arith in
        rw z (elim (Bool-cases (s₀.start + u + 1 == s.start + t + 1)) [
          | inl same ↦ rw same (named_value s t b w e ∙ ap (committed_view s₀) (agree same))
          | inr other ↦ rw other (l u a (before other) f)
        ])
      where
        index : (s₀.start + u + 1 == s.start + t + 1) ≡ true → u ≡ t
        index same = omega (arith, (==_iff _ _).0 same, w.start_eq)

        agree : (s₀.start + u + 1 == s.start + t + 1) ≡ true → b ≡ a
        agree same = cc (ap (get_elem? s₀.lh) (index same))

        before : (s₀.start + u + 1 == s.start + t + 1) ≡ false → u < t
        before other = ground (arith, w.start_eq)

    -- The blocks from index `tail` on.
    abbrev Suffix : ℕ → List ℕ → Type 0
    Suffix tail bs = (k b : ℕ) → get_elem? bs k ≡ some b → get_elem? s₀.lh (tail + k) ≡ some b

    Suffix-tail : (tail b : ℕ) (bs : List ℕ) → Suffix tail (b ∷ bs) → Suffix (suc tail) bs
    Suffix-tail tail b bs h k x e =
        subst (λ n. get_elem? s₀.lh n ≡ some x) (omega arith) (h (suc k) x e)

    Suffix-head : (tail b : ℕ) (bs : List ℕ) → Suffix tail (b ∷ bs) → get_elem? s₀.lh tail ≡ some b
    Suffix-head tail b bs h = subst (λ n. get_elem? s₀.lh n ≡ some b) (omega arith) (h 0 b refl)

    write_from-Writing :
        (tail : ℕ) (bs : List ℕ) (s : State B)
        → Suffix tail bs
        → Writing s
        → Writing (write_from tail bs s)
    unfolding write_from
    write_from-Writing tail [] s h w = w
    write_from-Writing tail (b ∷ bs) s h w =
        write_from-Writing (suc tail) bs _ (Suffix-tail tail b bs h)
          (write_one tail (bread s b) s (log_block_bounds tail b (Suffix-head tail b bs h)) w)

    write_from-Logged :
        (tail : ℕ) (bs : List ℕ) (s : State B)
        → Suffix tail bs
        → Writing s
        → length bs ≤ s.power
        → Logged tail s
        → Logged (tail + length bs) (write_from tail bs s)
    unfolding write_from
    write_from-Logged tail [] s h w p l = λ t b lt e. l t b (omega arith) e
    write_from-Logged tail (b ∷ bs) s h w p l = λ t x lt e.
        write_from-Logged (suc tail) bs _ (Suffix-tail tail b bs h)
          (write_one tail (bread s b) s (log_block_bounds tail b (Suffix-head tail b bs h)) w)
          (omega (arith, power-bwrite (s.start + tail + 1) (bread s b) s))
          (write_one_lem tail b s (Suffix-head tail b bs h) w (omega arith) l) t x (omega arith) e

    power-write_from :
        (tail : ℕ) (bs : List ℕ) (s : State B) → (write_from tail bs s).power ≡ s.power - length bs
    unfolding write_from
    power-write_from tail [] s = omega arith
    power-write_from tail (b ∷ bs) s = omega (
      arith,
      power-write_from (suc tail) bs (bwrite (s.start + tail + 1) (bread s b) s),
      power-bwrite (s.start + tail + 1) (bread s b) s,
    )

    -- What a failed or finished commit leaves on the disk.
    abbrev pub Left : (ℕ → B) → Type 0
    Left disk =
        ((s₀.power ≤ length s₀.lh) × Clean c s₀.start s₀.size s₀.disk disk)
        ⊎ ((length s₀.lh < s₀.power) × Committed c s₀.start s₀.size s₀.lh (committed_view s₀) disk)
        ⊎ ((length s₀.lh < s₀.power) × Clean c s₀.start s₀.size (committed_view s₀) disk)

    logged : State B
    logged = write_from 0 s₀.lh s₀

    zeroth : Suffix 0 s₀.lh
    zeroth k x e = subst (λ n. get_elem? s₀.lh n ≡ some x) (omega arith) e

    start_Writing : Writing s₀
    start_Writing = record {
      start_eq = refl;
      lh_eq = refl;
      header_kept = refl;
      disk_kept = λ b o. refl;
      dirty_kept = λ b o. refl;
      flushed = q.flushed;
    }

    logged-Writing : Writing logged
    unfolding logged
    logged-Writing = write_from-Writing 0 s₀.lh s₀ zeroth start_Writing

    logged-Clean : Clean c s₀.start s₀.size s₀.disk logged.disk
    logged-Clean = record {
      header = rw logged-Writing.header_kept q.header;
      home = logged-Writing.disk_kept;
    }

    -- The header block of the transaction.
    new_header : B
    new_header = write_header c logged.lh (bread logged logged.start)

    -- The header is written: the transaction is committed.
    headed : State B
    headed = write_head c logged

    written_header : read_header c (update logged.disk logged.start new_header s₀.start) ≡ s₀.lh
    unfolding new_header
    written_header =
        ap (read_header c) (
          ap (update logged.disk logged.start new_header) (sym logged-Writing.start_eq)
          ∙ update_self logged.disk logged.start new_header)
        ∙ ap (λ l. read_header c (write_header c l (bread logged logged.start)))
            logged-Writing.lh_eq
        ∙ read_header-write_header c s₀.lh (bread logged logged.start) q.named.few q.named.words

    headed-Installing :
        0 < logged.power → Installing c s₀.start s₀.size s₀.lh (committed_view s₀) q.named headed
    unfolding headed write_head bwrite new_header
    headed-Installing h =
        let z : (logged.power == 0) ≡ false = ground arith in
        rw z (record {
          start_eq = w.start_eq;
          committed = record {
            header = written_header;
            logged = λ t b e.
                update_ne logged.disk logged.start new_header (s₀.start + t + 1)
                  (omega (arith, w.start_eq))
                ∙ all t b (omega (arith, lt-length s₀.lh t b e)) e;
            rest = λ b o n.
                update_ne logged.disk logged.start new_header b (omega (arith, w.start_eq))
                ∙ w.disk_kept b o
                ∙ sym (unnamed b n);
          };
          flushed = λ a lo hi. ground (arith, w.flushed a lo hi);
        })
      where
        w : Writing logged
        w = logged-Writing

        enough : length s₀.lh ≤ s₀.power
        enough = unfold logged in omega (arith, h, power-write_from 0 s₀.lh s₀)

        all : Logged (0 + length s₀.lh) logged
        all =
            unfold logged in
            write_from-Logged 0 s₀.lh s₀ zeroth start_Writing enough
              (λ t b lt e. absurd (omega arith))

        unnamed : (b : ℕ) → has b s₀.lh ≡ false → committed_view s₀ b ≡ s₀.disk b
        unnamed b n = rw n

    power-headed : headed.power ≡ logged.power - 1
    unfolding headed write_head new_header
    power-headed = power-bwrite logged.start new_header logged

    lh-headed : headed.lh ≡ s₀.lh
    unfolding headed write_head bwrite new_header
    lh-headed = ground (arith, logged-Writing.lh_eq)

    headed_dead : logged.power ≡ 0 → headed ≡ logged
    unfolding headed write_head new_header
    headed_dead h = bwrite_dead logged.start new_header logged h

    commit_dead :
        logged.power ≡ 0
        → (write_head c (record (install_trans headed) { lh = [] })).disk ≡ logged.disk
    unfolding install_trans
    commit_dead h =
        rw (headed_dead h, install_from_dead 0 logged.lh logged h)
          (write_head_dead c s₀.start s₀.size logged h)

    power-logged : logged.power ≡ s₀.power - length s₀.lh
    unfolding logged
    power-logged = power-write_from 0 s₀.lh s₀

    -- Whenever the power fails, a commit leaves the old contents, the committed transaction, or the
    -- new contents.
    pub commit-Left : 0 < length s₀.lh → Left (commit c s₀).disk
    unfolding commit write_log headed logged
    commit-Left some_blocks =
        rw (lt→ltb 0 (length s₀.lh) some_blocks) (elim (Bool-cases (logged.power == 0)) [
          | inl z ↦ inl (
            ground (arith, power-logged),
            subst (Clean c s₀.start s₀.size s₀.disk) (sym (commit_dead ((==_iff _ 0).0 z)))
                logged-Clean,
          )
          | inr z ↦ inr (alive z)
        ])
      where
        alive :
            (logged.power == 0) ≡ false
            → ((length s₀.lh < s₀.power)
                × Committed c s₀.start s₀.size s₀.lh
                    (committed_view s₀)
                    (write_head c (record (install_trans headed) { lh = [] })).disk)
              ⊎ ((length s₀.lh < s₀.power)
                  × Clean c s₀.start s₀.size
                      (committed_view s₀)
                      (write_head c (record (install_trans headed) { lh = [] })).disk)
        alive z =
            elim (install_and_clear_lem c s₀.start s₀.size s₀.lh (committed_view s₀) q.named headed
              lh-headed (headed-Installing (ground arith))) [
                | inl (p, k) ↦ inr (ground (arith, power-logged), k)
                | inr (p, k) ↦ inl (ground (arith, power-logged), k)
              ]

    -- A commit is atomic. The log has `log.size` blocks, its header on the disk is empty, none of its
    -- buffers is dirty, and the transaction names at least one block and fewer than `log.size`, all
    -- outside the log. Cut off the power at any point of the commit, and once more at any point of
    -- the recovery: a recovery with enough power for the whole log then leaves the header empty, and
    -- all blocks outside the log as before the transaction or all as after it; as after it exactly if
    -- the header of the transaction was written.
    pub commit_atomic :
        (first second : ℕ)
        → 0 < length s₀.lh
        → length s₀.lh < second
        → let once = (initlog c s₀.start s₀.size first (commit c s₀).disk).disk in
          let disk = (initlog c s₀.start s₀.size second once).disk in
          ((s₀.power ≤ length s₀.lh) × Clean c s₀.start s₀.size s₀.disk disk)
          ⊎ ((length s₀.lh < s₀.power) × Clean c s₀.start s₀.size (committed_view s₀) disk)
    commit_atomic first second some_blocks enough = elim (commit-Left some_blocks) [
      | inl (p, k) ↦ inl (p, twice s₀.disk _ k)
      | inr (inl (p, k)) ↦ inr (
        p,
        elim (initlog-Committed c s₀.start s₀.size first s₀.lh (committed_view s₀) _ q.named k) [
          | inl (_, d) ↦
              initlog-Clean c s₀.start s₀.size second (committed_view s₀) _
                (omega (arith, q.named.fits)) d
          | inr (_, d) ↦
              elim (initlog-Committed c s₀.start s₀.size second s₀.lh (committed_view s₀) _ q.named
                d) [ inl (_, e) ↦ e | inr (few, _) ↦ absurd (omega arith) ]
        ],
      )
      | inr (inr (p, k)) ↦ inr (p, twice (committed_view s₀) _ k)
    ]
      where
        twice :
            (view disk : ℕ → B)
            → Clean c s₀.start s₀.size view disk
            → Clean c s₀.start s₀.size view
                (initlog c s₀.start s₀.size second
                  (initlog c s₀.start s₀.size first disk).disk).disk
        twice view disk k =
            initlog-Clean c s₀.start s₀.size second view _ (omega (arith, q.named.fits))
              (initlog-Clean c s₀.start s₀.size first view disk (omega (arith, q.named.fits)) k)
