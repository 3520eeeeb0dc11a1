-- ===== src/Log/Reserve.antt =====
-- The reservation of log space by `begin_op`, `log_write` and `end_op`.
use os.Base.{
  ℕ, zero, suc, ◌+◌, ◌-◌, ◌*◌, ◌≤◌, ◌<◌, ◌≡◌, sym, ◌∙◌, inl, inr, Bool, true, false, ◌||◌, ◌&&◌,
  not, refl, Option, none, some, List, [], ◌∷◌, ◌++◌, arith, length, get_elem?, set, All, All-set,
  All-get, length-append, length-set, leb, ltb, if◌then◌else◌, Bool-cases,
}
use os.Log.Defs.{log_size, max_op_blocks, State, has, update, log_write, begin_op, end_op}
use os.Log.Disk.{update_self}

abbrev pub total : List ℕ → ℕ
total [] = 0
total (x ∷ xs) = x + total xs

-- The entries but the one at an index.
abbrev pub remove_at : List ℕ → ℕ → List ℕ
remove_at [] i = []
remove_at (x ∷ xs) zero = xs
remove_at (x ∷ xs) (suc i) = x ∷ remove_at xs i

-- `ops` lists for each running operation how many blocks it may still log.
pub record IsReserved {B : Type 0} (s : State B) (ops : List ℕ) : Type 0 where
  pub running : s.outstanding ≡ length ops
  pub quota : All (λ n. n ≤ max_op_blocks) ops
  pub room : length s.lh + total ops ≤ log_size

total-le :
    (ops : List ℕ) → All (λ n. n ≤ max_op_blocks) ops → total ops ≤ length ops * max_op_blocks
total-le [] a = omega arith
total-le (x ∷ ops) a = omega (arith, total-le ops a.1)

total-set :
    (ops : List ℕ) (k r : ℕ) → get_elem? ops k ≡ some (suc r) → total (set ops k r) + 1 ≡ total ops
total-set [] k r e = cc
total-set (x ∷ ops) zero r e = ground arith
total-set (x ∷ ops) (suc k) r e = omega (arith, total-set ops k r e)

total-remove_at : (ops : List ℕ) (k : ℕ) → total (remove_at ops k) ≤ total ops
total-remove_at [] k = omega arith
total-remove_at (x ∷ ops) zero = omega arith
total-remove_at (x ∷ ops) (suc k) = omega (arith, total-remove_at ops k)

length-remove_at :
    (ops : List ℕ) (k : ℕ) → k < length ops → length (remove_at ops k) + 1 ≡ length ops
length-remove_at [] k h = elim h [ ]
length-remove_at (x ∷ ops) zero h = omega arith
length-remove_at (x ∷ ops) (suc k) h = omega (arith, length-remove_at ops k)

All-remove_at :
    (ops : List ℕ) (k : ℕ)
    → All (λ n. n ≤ max_op_blocks) ops
    → All (λ n. n ≤ max_op_blocks) (remove_at ops k)
All-remove_at [] k a = tt
All-remove_at (x ∷ ops) zero a = a.1
All-remove_at (x ∷ ops) (suc k) a = (a.0, All-remove_at ops k a.1)

one-le-length : (ops : List ℕ) (k r : ℕ) → get_elem? ops k ≡ some r → 1 ≤ length ops
one-le-length [] k r e = cc
one-le-length (x ∷ ops) k r e = omega arith

has-append : (b : ℕ) (xs : List ℕ) → has b (xs ++ (b ∷ [])) ≡ true
has-append b [] = ground arith
has-append b (x ∷ xs) = ground (arith, has-append b xs)

has-logged : (b : ℕ) (xs : List ℕ) → has b (if has b xs then xs else xs ++ (b ∷ [])) ≡ true
has-logged b xs = elim (Bool-cases (has b xs)) [ inl z ↦ rw z z | inr z ↦ rw z (has-append b xs) ]

module _ {B : Type 0} (s : State B) (ops : List ℕ) (v : IsReserved s ops) where
  -- An operation that starts has its quota reserved.
  pub begin_op-IsReserved : {t : State B} → begin_op s ≡ some t → IsReserved t (max_op_blocks ∷ ops)
  unfolding begin_op
  begin_op-IsReserved {t} h = elim (Bool-cases s.committing) [
    | inl z ↦ ground arith
    | inr z ↦ ground (arith, total-le ops v.quota)
  ]

  -- An operation that has blocks left in its quota can log one: there is no panic, the reservation
  -- goes down by one, and the block is in the header and in its buffer. This wants a log of more
  -- than LOGSIZE blocks.
  pub log_write-IsReserved :
      (b : ℕ) (d : B) (k r : ℕ)
      → log_size < s.size
      → get_elem? ops k ≡ some (suc r)
      → (t : State B) × (log_write b d s ≡ some t)
        × IsReserved t (set ops k r)
        × (has b t.lh ≡ true)
        × (t.dirty b ≡ some d)
  unfolding log_write
  log_write-IsReserved b d k r big e = (
    record s {
      lh = if has b s.lh then s.lh else s.lh ++ (b ∷ []);
      dirty = update s.dirty b (some d);
    },
    granted,
    record {
      running = v.running ∙ sym (length-set ops k r);
      quota = All-set (λ n. n ≤ max_op_blocks) ops k r quota_left v.quota;
      room = fits;
    },
    has-logged b s.lh,
    update_self s.dirty b (some d),
  )
    where
      quota_left : r ≤ max_op_blocks
      quota_left = omega (arith, All-get (λ n. n ≤ max_op_blocks) ops k (suc r) e v.quota)

      small : length s.lh < log_size
      small = omega (arith, total-set ops k r e, v.room)

      granted :
          log_write b d s
          ≡ some (record s {
            lh = if has b s.lh then s.lh else s.lh ++ (b ∷ []);
            dirty = update s.dirty b (some d);
          })
      granted =
          let z : (leb log_size (length s.lh)
                || leb (s.size - 1) (length s.lh)
                || ltb s.outstanding 1)
              ≡ false =
            ground (arith, one-le-length ops k (suc r) e, small) in
          rw z

      fits : length (if has b s.lh then s.lh else s.lh ++ (b ∷ [])) + total (set ops k r) ≤ log_size
      fits = elim (Bool-cases (has b s.lh)) [
        | inl z ↦ rw z (omega (arith, total-set ops k r e, v.room))
        | inr z ↦ rw z (omega (arith, total-set ops k r e, v.room, length-append s.lh (b ∷ [])))
      ]

  -- When an operation ends, its reservation is given up.
  pub end_op-IsReserved :
      (k : ℕ) {t : State B} {last : Bool}
      → k < length ops
      → end_op s ≡ some (last, t)
      → IsReserved t (remove_at ops k)
  unfolding end_op
  end_op-IsReserved k {t} {last} lt h =
      ground (arith, length-remove_at ops k lt, total-remove_at ops k, All-remove_at ops k v.quota)

module _ {B : Type 0} where
  -- So many calls of `begin_op` one after the other; `none` when one sleeps.
  abbrev pub begin_ops : ℕ → State B → Option (State B)
  begin_ops zero s = some s
  begin_ops (suc n) s = elim (begin_op s) [ none ↦ none | some s' ↦ begin_ops n s' ]

  -- A call of `log_write` for each block of a list with its new data; `none` at a panic.
  abbrev pub log_all : List (ℕ × B) → State B → Option (State B)
  log_all [] s = some s
  log_all ((b, d) ∷ more) s = elim (log_write b d s) [ none ↦ none | some s' ↦ log_all more s' ]

  -- Whether the blocks are different from each other and from those of a list.
  abbrev pub are_new : List (ℕ × B) → List ℕ → Bool
  are_new [] lh = true
  are_new ((b, d) ∷ more) lh = not (has b lh) && are_new more (lh ++ (b ∷ []))

  -- The log of LOGSIZE blocks that mkfs.c makes, with nothing in it.
  abbrev pub empty_log : (start power : ℕ) → (ℕ → B) → State B
  empty_log start power disk = record {
    start = start;
    size = log_size;
    outstanding = 0;
    committing = false;
    lh = [];
    disk = disk;
    dirty = λ _. none;
    power = power;
  }

  logged :
      (b : ℕ) (d : B) (s : State B)
      → s.size ≡ log_size
      → 1 ≤ s.outstanding
      → has b s.lh ≡ false
      → length s.lh + 1 < log_size
      → log_write b d s
        ≡ some (record s { lh = s.lh ++ (b ∷ []); dirty = update s.dirty b (some d) })
  unfolding log_write
  logged b d s size running new room =
      let z : (leb log_size (length s.lh) || leb (s.size - 1) (length s.lh) || ltb s.outstanding 1)
          ≡ false =
        ground arith in
      rw z (rw new refl)

  -- Different blocks are logged as long as there is room.
  log_all_lem :
      (bs : List (ℕ × B)) (s : State B)
      → s.size ≡ log_size
      → 1 ≤ s.outstanding
      → are_new bs s.lh ≡ true
      → length s.lh + length bs < log_size
      → (t : State B) × (log_all bs s ≡ some t)
        × (t.size ≡ log_size)
        × (t.outstanding ≡ s.outstanding)
        × (length t.lh ≡ length s.lh + length bs)
  log_all_lem [] s size running news room = (s, refl, size, refl, omega arith)
  log_all_lem ((b, d) ∷ more) s size running news room =
      let new : has b s.lh ≡ false = ground arith in
      let rest : are_new more (s.lh ++ (b ∷ [])) ≡ true = ground arith in
      let s' : State B = record s { lh = s.lh ++ (b ∷ []); dirty = update s.dirty b (some d) } in
      let (t, done, size', running', all) =
        log_all_lem more s' size running rest (omega (arith, length-append s.lh (b ∷ []))) in
      (
        t,
        rw (logged b d s size running new (omega arith), log_all) done,
        size',
        running',
        omega (arith, all, length-append s.lh (b ∷ [])),
      )

  full :
      (b : ℕ) (d : B) (t : State B) → t.size ≡ log_size → length t.lh ≡ 29 → log_write b d t ≡ none
  unfolding log_write
  full b d t size many = ground arith

  -- In the empty log of LOGSIZE blocks that mkfs.c makes, `begin_op` lets three operations begin, for
  -- which 30 blocks are reserved. Any 29 different blocks can then be logged; after them the
  -- operations have one reserved block left, and yet `log_write` of any block panics.
  pub log_write_full :
      (start power : ℕ) (disk : ℕ → B) (bs : List (ℕ × B)) (b : ℕ) (d : B)
      → are_new bs [] ≡ true
      → length bs ≡ 29
      → (s t : State B) × (begin_ops 3 (empty_log start power disk) ≡ some s)
        × IsReserved s (10 ∷ 10 ∷ 10 ∷ [])
        × (log_all bs s ≡ some t)
        × IsReserved t (1 ∷ 0 ∷ 0 ∷ [])
        × (log_write b d t ≡ none)
  unfolding begin_op
  log_write_full start power disk bs b d news many =
      let s : State B = record (empty_log start power disk) { outstanding = 3 } in
      let (t, done, size, running, all) = log_all_lem bs s refl (omega arith) news (omega arith) in
      (
        s,
        t,
        refl,
        record {
          running = refl;
          quota = (omega arith, (omega arith, (omega arith, tt)));
          room = omega arith;
        },
        done,
        record {
          running = running;
          quota = (omega arith, (omega arith, (omega arith, tt)));
          room = omega (arith, all);
        },
        full b d t size (omega (arith, all)),
      )
