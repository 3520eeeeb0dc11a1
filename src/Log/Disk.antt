-- ===== src/Log/Disk.antt =====
-- What a disk can hold around a commit, and what `install_trans` does to it.
use os.Base.{
  ℕ, zero, suc, ◌+◌, ◌≤◌, ◌<◌, ◌≡◌, ◌≢◌, refl, sym, ap, subst, ◌∙◌, ◌⊎◌, inl, inr, true, false,
  none, some, List, [], ◌∷◌, arith, length, All, get_elem?, ◌==◌, Bool-cases, ==_iff,
}
use os.Log.Defs.{
  read_header, u32, log_size, BlockWords, State, update, has, bread, bwrite, install_from,
}

-- A block that is not in the log's area of the disk, `log.size` blocks from `log.start` on.
abbrev pub Outside : ℕ → ℕ → ℕ → Type 0
Outside start size b = (b < start) ⊎ (start + size ≤ b)

module _ {B : Type 0} (c : BlockWords B) (start size : ℕ) where
  -- The log is empty and the home blocks hold `view`.
  pub record Clean (view disk : ℕ → B) : Type 0 where
    pub header : read_header c (disk start) ≡ []
    pub home : (b : ℕ) → Outside start size b → disk b ≡ view b

  -- The header names the blocks `lh`, the log holds their contents in `view`, and all other home
  -- blocks are as in `view`.
  pub record Committed (lh : List ℕ) (view disk : ℕ → B) : Type 0 where
    pub header : read_header c (disk start) ≡ lh
    pub logged : (t b : ℕ) → get_elem? lh t ≡ some b → disk (start + t + 1) ≡ view b
    pub rest : (b : ℕ) → Outside start size b → has b lh ≡ false → disk b ≡ view b

-- No buffer of the log's area is dirty.
abbrev pub LogFlushed : {B : Type 0} → ℕ → ℕ → State B → Type 0
LogFlushed start size s = (a : ℕ) → start ≤ a → a < start + size → s.dirty a ≡ none

-- The blocks that the header names: no more than the header and the log's area have room for, as
-- `log_write` sees to, and words, none in the log's area.
pub record IsNamed (start size : ℕ) (lh : List ℕ) : Type 0 where
  pub few : length lh ≤ log_size
  pub fits : length lh < size
  pub words : All (λ b. b < u32) lh
  pub outside : (t b : ℕ) → get_elem? lh t ≡ some b → Outside start size b

pub bread_clean : {B : Type 0} (s : State B) (a : ℕ) → s.dirty a ≡ none → bread s a ≡ s.disk a
unfolding bread
bread_clean s a h = rw (h, bread)

pub update_self : {A : Type 0} (f : ℕ → A) (a : ℕ) (v : A) → update f a v a ≡ v
update_self f a v = rw ((==_iff a a).1 refl)

pub update_ne : {A : Type 0} (f : ℕ → A) (a : ℕ) (v : A) (x : ℕ) → x ≢ a → update f a v x ≡ f x
update_ne f a v x h = ground arith

pub has-get_elem? : (lh : List ℕ) (b : ℕ) → has b lh ≡ true → (t : ℕ) × (get_elem? lh t ≡ some b)
has-get_elem? [] b h = cc
has-get_elem? (x ∷ lh) b h = elim (Bool-cases (b == x)) [
  | inl z ↦ (0, ap some (sym ((==_iff b x).0 z)))
  | inr z ↦ let (t, e) = has-get_elem? lh b (rw z at h) in (suc t, e)
]

pub get_elem?-has : (lh : List ℕ) (t b : ℕ) → get_elem? lh t ≡ some b → has b lh ≡ true
get_elem?-has [] t b e = cc
get_elem?-has (x ∷ lh) zero b e = ground arith
get_elem?-has (x ∷ lh) (suc t) b e = ground (arith, get_elem?-has lh t b)

pub lt-length : (lh : List ℕ) (t b : ℕ) → get_elem? lh t ≡ some b → t < length lh
lt-length [] t b e = cc
lt-length (x ∷ lh) zero b e = omega arith
lt-length (x ∷ lh) (suc t) b e = omega (arith, lt-length lh t b)

module _ {B : Type 0} (c : BlockWords B) (start size : ℕ) (lh : List ℕ) (view : ℕ → B)
    (named : IsNamed start size lh) where
  -- What holds while the blocks are installed.
  pub record Installing (s : State B) : Type 0 where
    pub start_eq : s.start ≡ start
    pub committed : Committed c start size lh view s.disk
    pub flushed : LogFlushed start size s

  logged_value :
      (t b : ℕ) (s : State B)
      → get_elem? lh t ≡ some b
      → Installing s
      → bread s (s.start + t + 1) ≡ view b
  logged_value t b s e i =
      bread_clean s (s.start + t + 1) (i.flushed _ (omega arith) (omega (arith, few_t)))
      ∙ ap s.disk place
      ∙ i.committed.logged t b e
    where
      place : s.start + t + 1 ≡ start + t + 1
      place = omega arith

      few_t : t + 1 < size
      few_t = omega (arith, lt-length lh t b e, named.fits)

  -- The write of one installed block keeps what the log promises.
  install_one :
      (t b : ℕ) (s : State B)
      → get_elem? lh t ≡ some b
      → Installing s
      → Installing (bwrite b (bread s (s.start + t + 1)) s)
  unfolding bwrite
  install_one t b s e i = elim (Bool-cases (s.power == 0)) [
    | inl z ↦ rw z i
    | inr z ↦ rw z (record {
      start_eq = i.start_eq;
      committed = record {
        header =
            rw (update_ne s.disk b _ start (omega (arith, named.outside t b e))) i.committed.header;
        logged = λ u a f.
            rw
              (update_ne s.disk b (bread s (s.start + t + 1)) (start + u + 1)
                (omega (arith, named.outside t b e, lt-length lh u a f, named.fits)))
              (i.committed.logged u a f);
        rest = λ a o n.
            rw
              (update_ne s.disk b (bread s (s.start + t + 1)) a
                (λ same. absurd (named_ne a n same)))
              (i.committed.rest a o n);
      };
      flushed = λ a lo hi. ground (arith, i.flushed a lo hi);
    })
  ]
    where
      named_ne : (a : ℕ) → has a lh ≡ false → a ≡ b → ⊥
      named_ne a n same = ground (arith, get_elem?-has lh t b e, ap (λ x. has x lh) same)

  -- A home block that has its new contents keeps them.
  install_one_keeps :
      (t b x : ℕ) (s : State B)
      → get_elem? lh t ≡ some b
      → Installing s
      → s.disk x ≡ view x
      → (bwrite b (bread s (s.start + t + 1)) s).disk x ≡ view x
  unfolding bwrite
  install_one_keeps t b x s e i h = elim (Bool-cases (s.power == 0)) [
    | inl z ↦ rw z h
    | inr z ↦ rw z (elim (Bool-cases (x == b)) [
      | inl same ↦ rw same (logged_value t b s e i ∙ ap view (sym ((==_iff x b).0 same)))
      | inr other ↦ rw other h
    ])
  ]

  -- With power left the block gets its new contents.
  install_one_lem :
      (t b : ℕ) (s : State B)
      → get_elem? lh t ≡ some b
      → Installing s
      → 0 < s.power
      → ((bwrite b (bread s (s.start + t + 1)) s).disk b ≡ view b)
        × ((bwrite b (bread s (s.start + t + 1)) s).power + 1 ≡ s.power)
  unfolding bwrite
  install_one_lem t b s e i h =
      let z : (s.power == 0) ≡ false = ground arith in
      rw z (
        rw (update_self s.disk b (bread s (s.start + t + 1))) (logged_value t b s e i),
        omega arith,
      )

  -- The blocks from index `tail` on.
  abbrev Suffix : ℕ → List ℕ → Type 0
  Suffix tail bs = (k b : ℕ) → get_elem? bs k ≡ some b → get_elem? lh (tail + k) ≡ some b

  Suffix-tail : (tail b : ℕ) (bs : List ℕ) → Suffix tail (b ∷ bs) → Suffix (suc tail) bs
  Suffix-tail tail b bs h k x e = subst (λ n. get_elem? lh n ≡ some x) (omega arith) (h (suc k) x e)

  Suffix-head : (tail b : ℕ) (bs : List ℕ) → Suffix tail (b ∷ bs) → get_elem? lh tail ≡ some b
  Suffix-head tail b bs h = subst (λ n. get_elem? lh n ≡ some b) (omega arith) (h 0 b refl)

  pub install_from-Installing :
      (tail : ℕ) (bs : List ℕ) (s : State B)
      → Suffix tail bs
      → Installing s
      → Installing (install_from tail bs s)
  unfolding install_from
  install_from-Installing tail [] s h i = i
  install_from-Installing tail (b ∷ bs) s h i =
      install_from-Installing (suc tail) bs _ (Suffix-tail tail b bs h)
        (install_one tail b s (Suffix-head tail b bs h) i)

  install_from_keeps :
      (tail : ℕ) (bs : List ℕ) (x : ℕ) (s : State B)
      → Suffix tail bs
      → Installing s
      → s.disk x ≡ view x
      → (install_from tail bs s).disk x ≡ view x
  unfolding install_from
  install_from_keeps tail [] x s h i e = e
  install_from_keeps tail (b ∷ bs) x s h i e =
      install_from_keeps (suc tail) bs x _ (Suffix-tail tail b bs h)
        (install_one tail b s (Suffix-head tail b bs h) i)
        (install_one_keeps tail b x s (Suffix-head tail b bs h) i e)

  pub install_from_lem :
      (tail : ℕ) (bs : List ℕ) (x : ℕ) (s : State B)
      → Suffix tail bs
      → Installing s
      → length bs ≤ s.power
      → has x bs ≡ true
      → (install_from tail bs s).disk x ≡ view x
  unfolding install_from
  install_from_lem tail [] x s h i p m = cc
  install_from_lem tail (b ∷ bs) x s h i p m = elim (Bool-cases (x == b)) [
    | inl z ↦
        install_from_keeps (suc tail) bs x _ (Suffix-tail tail b bs h)
          (install_one tail b s (Suffix-head tail b bs h) i)
          (subst (λ y. (bwrite b (bread s (s.start + tail + 1)) s).disk y ≡ view y)
            (sym ((==_iff x b).0 z)) done.0)
    | inr z ↦
        install_from_lem (suc tail) bs x _ (Suffix-tail tail b bs h)
          (install_one tail b s (Suffix-head tail b bs h) i) (omega (arith, done.1)) (rw z at m)
  ]
    where
      done :
          ((bwrite b (bread s (s.start + tail + 1)) s).disk b ≡ view b)
          × ((bwrite b (bread s (s.start + tail + 1)) s).power + 1 ≡ s.power)
      done = install_one_lem tail b s (Suffix-head tail b bs h) i (omega arith)
