-- ===== src/Cache/Reads.antt =====
-- `bget` and `bread` of xv6-public/bio.c.
use os.Base.{
  ℕ, ap₂, ◌≡◌, ◌≢◌, refl, sym, ap, ◌∙◌, subst, ◌⊎◌, inl, inr, Bool, true, false, ◌&&◌, not, Option,
  none, some, List, ◌==◌, leb, ◌≤◌, ◌+◌, ◌%◌, Bool-cases, Option-cases, ==_iff, leb→le, arith,
}
use os.Cache.Defs.{
  Block, Buf, State, Got, got, waits, panics, u32, update, set_buf, is_block, is_unused, recycle,
  find_first, find_last, holdingsleep, lock_buf, bget, iderw, read_buf, read_locked, bread,
  bread_woken,
}
use os.Cache.Search.{In, find_first_found, find_first_missed, find_last_found, find_last_missed}
use os.Cache.Coherence.{
  true≢false, false≢true, IsSound, IsValid, update-same, set_buf-IsValid, change-IsValid, Locked,
  Waiting, IsFull, Locks, lock_buf_lem,
}

is_block_same :
    (dev blockno : ℕ) (b : Buf)
    → is_block dev blockno b ≡ true
    → (b.dev ≡ dev) × (b.blockno ≡ blockno)
is_block_same dev blockno b e = ground arith

same_is_block :
    (dev blockno : ℕ) (b : Buf) → b.dev ≡ dev → b.blockno ≡ blockno → is_block dev blockno b ≡ true
same_is_block dev blockno b e e' = ground arith

lock_set-Locks :
    (Panic : Type 0) (me dev blockno b : ℕ) (v : Buf) (s : State)
    → In b s.order
    → IsValid (set_buf b v s)
    → v.dev ≡ dev
    → v.blockno ≡ blockno
    → Locks s.order s.disk me dev blockno Panic (lock_buf me b (set_buf b v s))
lock_set-Locks Panic me dev blockno b v s at ok e e' =
    let here : update s.bufs b v b ≡ v = update-same s.bufs b v in
    subst (λ n. Locks s.order s.disk me dev n Panic (lock_buf me b (set_buf b v s)))
      (ap (λ w. w.blockno) here ∙ e')
      (subst
        (λ d.
          Locks s.order s.disk me d (update s.bufs b v b).blockno Panic
            (lock_buf me b (set_buf b v s)))
        (ap (λ w. w.dev) here ∙ e) (lock_buf_lem Panic me b (set_buf b v s) ok at))

-- The buffer that `bget` finds, and the one that it recycles.
found-Locks :
    (Panic : Type 0) (me dev blockno b : ℕ) (s : State)
    → IsValid s
    → find_first (λ c. is_block dev blockno (s.bufs c)) s.order ≡ some b
    → Locks s.order s.disk me dev blockno Panic
        (lock_buf me b (set_buf b (record (s.bufs b) { refcnt = ((s.bufs b).refcnt + 1) % u32 }) s))
found-Locks Panic me dev blockno b s ok e =
    let (at, hit) = find_first_found (λ c. is_block dev blockno (s.bufs c)) s.order b e in
    let (d, n) = is_block_same dev blockno (s.bufs b) hit in
    let old : IsSound s.disk (s.bufs b) = ok.sound b at in
    let v : Buf = record (s.bufs b) { refcnt = ((s.bufs b).refcnt + 1) % u32 } in
    lock_set-Locks Panic me dev blockno b v s at
      (change-IsValid ok b at v refl refl
        (record { pinned = old.pinned; of_disk = old.of_disk; clean = old.clean }))
      d n

recycled-Locks :
    (Panic : Type 0) (me dev blockno b : ℕ) (s : State)
    → IsValid s
    → find_first (λ c. is_block dev blockno (s.bufs c)) s.order ≡ none
    → find_last (λ c. is_unused (s.bufs c)) s.order ≡ some b
    → Locks s.order s.disk me dev blockno Panic
        (lock_buf me b (set_buf b (recycle dev blockno (s.bufs b)) s))
recycled-Locks Panic me dev blockno b s ok e e' =
    let (at, _) = find_last_found (λ c. is_unused (s.bufs c)) s.order b e' in
    lock_set-Locks Panic me dev blockno b (recycle dev blockno (s.bufs b)) s at
      (set_buf-IsValid ok b (recycle dev blockno (s.bufs b))
        (λ c at' (d, n, _). absurd (
          missed c (find_first_missed (λ c. is_block dev blockno (s.bufs c)) s.order c e at')
            (same_is_block dev blockno (s.bufs c) (sym d) (sym n))))
        (record {
          pinned = λ z. absurd (false≢true z);
          of_disk = λ z. absurd (false≢true z);
          clean = λ _ z _. absurd (false≢true z);
        }))
      refl refl
  where
    missed :
        (c : ℕ)
        → is_block dev blockno (s.bufs c) ≡ false
        → is_block dev blockno (s.bufs c) ≡ true
        → ⊥
    missed c z z' = false≢true (sym z ∙ z')

pub bget_lem :
    (me dev blockno : ℕ) (s : State)
    → IsValid s
    → Locks s.order s.disk me dev blockno (IsFull s dev blockno) (bget me dev blockno s)
unfolding bget
bget_lem me dev blockno s ok = elim (Option-cases (find_first hit s.order)) [
  | inr (b, z) ↦
      let e : bget me dev blockno s
          ≡ lock_buf me b
              (set_buf b (record (s.bufs b) { refcnt = ((s.bufs b).refcnt + 1) % u32 }) s) =
        rw (z, bget) refl in
      subst Ends (sym e) (found-Locks Full me dev blockno b s ok z)
  | inl z ↦ elim (Option-cases (find_last free s.order)) [
    | inr (b, y) ↦
        let e : bget me dev blockno s
            ≡ lock_buf me b (set_buf b (recycle dev blockno (s.bufs b)) s) =
          rw (z, y, bget) refl in
        subst Ends (sym e) (recycled-Locks Full me dev blockno b s ok z y)
    | inl y ↦
        let e : bget me dev blockno s ≡ panics = rw (z, y, bget) refl in
        subst Ends (sym e)
          (λ b at. (find_first_missed hit s.order b z at, find_last_missed free s.order b y at))
  ]
]
  where
    hit : ℕ → Bool
    hit b = is_block dev blockno (s.bufs b)

    free : ℕ → Bool
    free b = is_unused (s.bufs b)

    Full : Type 0
    Full = IsFull s dev blockno

    Ends : Got → Type 0
    Ends = Locks s.order s.disk me dev blockno Full

-- How `bread` may end.
abbrev pub Reads : List ℕ → (ℕ → Block) → ℕ → ℕ → ℕ → ℕ → Type 0 → Got → Type 0
Reads order disk disksize me dev blockno Full (got b s) =
    Locked order disk me dev blockno b s × ((s.bufs b).valid ≡ true)
Reads order disk disksize me dev blockno Full (waits b s) = Waiting order disk dev blockno b s
Reads order disk disksize me dev blockno Full panics = Full ⊎ ((dev ≢ 1) ⊎ (disksize ≤ blockno))

-- What `iderw` does with a locked buffer that has not been read.
iderw_reads :
    (disksize me b : ℕ) (s : State)
    → holdingsleep me (s.bufs b).lock ≡ true
    → (s.bufs b).valid ≡ false
    → (s.bufs b).dirty ≡ false
    → ((s.bufs b).dev == 1) ≡ true
    → leb disksize (s.bufs b).blockno ≡ false
    → iderw disksize me b s
      ≡ some
          (set_buf b (record (s.bufs b) { contents = s.disk (s.bufs b).blockno; valid = true }) s)
unfolding iderw
iderw_reads disksize me b s held v d dev n = rw (held, v, dev, n, d) refl

differs : (x y : ℕ) → (x == 1) ≡ false → x ≡ y → y ≢ 1
differs x y d e e' = ground arith

pub iderw_panics :
    (disksize me b : ℕ) (s : State)
    → (((s.bufs b).dev == 1) ≡ false) ⊎ (leb disksize (s.bufs b).blockno ≡ true)
    → iderw disksize me b s ≡ none
unfolding iderw
iderw_panics disksize me b s bad = ground (
  arith,
  Bool-cases (holdingsleep me (s.bufs b).lock),
  Bool-cases ((s.bufs b).valid && not (s.bufs b).dirty),
)

-- The locked buffer once its block is read.
read-Locked :
    (order : List ℕ) (disk : ℕ → Block) (me dev blockno b : ℕ) (s : State)
    → Locked order disk me dev blockno b s
    → (s.bufs b).dev ≡ 1
    → Locked order disk me dev blockno b
        (set_buf b (record (s.bufs b) { contents = s.disk (s.bufs b).blockno; valid = true }) s)
      × ((update s.bufs b
            (record (s.bufs b) { contents = s.disk (s.bufs b).blockno; valid = true })
            b).valid
          ≡ true)
read-Locked order disk me dev blockno b s l e =
    let v : Buf = record (s.bufs b) { contents = s.disk (s.bufs b).blockno; valid = true } in
    let here : update s.bufs b v b ≡ v = update-same s.bufs b v in
    (
      record {
        of_list = l.of_list;
        ok =
            change-IsValid l.ok b (subst (In b) (sym l.same_order) l.of_list) v refl refl
              (record { pinned = λ _. refl; of_disk = λ _. e; clean = λ _ _ _. refl });
        same_order = l.same_order;
        same_disk = l.same_disk;
        held = rw (here) l.held;
        its_dev = rw (here) l.its_dev;
        its_block = rw (here) l.its_block;
        fresh = rw (here) (λ _ _. ap₂ (λ d n. d n) l.same_disk l.its_block);
      },
      rw (here) refl,
    )

read_locked-Reads :
    (order : List ℕ) (disk : ℕ → Block) (disksize me dev blockno : ℕ) (Full : Type 0) (r : Got)
    → Locks order disk me dev blockno Full r
    → Reads order disk disksize me dev blockno Full (read_locked disksize me r)
unfolding read_buf
read_locked-Reads order disk disksize me dev blockno Full panics full = inl full
read_locked-Reads order disk disksize me dev blockno Full (waits b s) w = w
read_locked-Reads order disk disksize me dev blockno Full (got b s) l =
    elim (Bool-cases (s.bufs b).valid) [
      | inl z ↦
          let cached : read_buf disksize me b s ≡ some s = rw (z, read_buf) refl in
          subst Ends (sym cached) (l, z)
      | inr z ↦
          let unread : read_buf disksize me b s ≡ iderw disksize me b s = rw (z, read_buf) refl in
          subst Ends (sym unread) (elim (Bool-cases ((s.bufs b).dev == 1)) [
            | inr d ↦
                subst Ends (sym (iderw_panics disksize me b s (inl d)))
                  (inr (inl (λ e. differs (s.bufs b).dev dev d l.its_dev e)))
            | inl d ↦ elim (Bool-cases (leb disksize (s.bufs b).blockno)) [
              | inl n ↦ subst Ends (sym (iderw_panics disksize me b s (inr n))) (
                  inr (
                    inr (
                      subst (λ m. disksize ≤ m) l.its_block
                        (leb→le disksize (s.bufs b).blockno n))))
              | inr n ↦
                  subst Ends (sym (iderw_reads disksize me b s l.held z (undirtied z) d n))
                    (read-Locked order disk me dev blockno b s l ((==_iff (s.bufs b).dev 1).0 d))
            ]
          ])
    ]
  where
    Ends : Option State → Type 0
    Ends o =
        Reads order disk disksize me dev blockno Full
          (elim o [ none ↦ panics | some s' ↦ got b s' ])

    undirtied : (s.bufs b).valid ≡ false → (s.bufs b).dirty ≡ false
    undirtied z = elim (Bool-cases (s.bufs b).dirty) [
      | inr y ↦ y
      | inl y ↦ absurd (
          true≢false
            (sym ((l.ok.sound b (subst (In b) (sym l.same_order) l.of_list)).pinned y) ∙ z))
    ]

-- In a valid state `bread` gives a locked and valid buffer of the block, with the bytes of the
-- disk unless it is dirty, or waits for the holder of that buffer, or panics, and then no buffer
-- can be recycled or the block is not on the disk. The disk and the list are as before.
pub bread_lem :
    (disksize me dev blockno : ℕ) (s : State)
    → IsValid s
    → Reads s.order s.disk disksize me dev blockno
        (IsFull s dev blockno)
        (bread disksize me dev blockno s)
unfolding bread
bread_lem disksize me dev blockno s ok =
    read_locked-Reads s.order s.disk disksize me dev blockno (IsFull s dev blockno)
      (bget me dev blockno s) (bget_lem me dev blockno s ok)

pub bread_woken_lem :
    (disksize me b : ℕ) (s : State)
    → IsValid s
    → In b s.order
    → Reads s.order s.disk disksize me
        (s.bufs b).dev
        (s.bufs b).blockno
        ⊥
        (bread_woken disksize me b s)
unfolding bread_woken
bread_woken_lem disksize me b s ok at =
    read_locked-Reads s.order s.disk disksize me (s.bufs b).dev (s.bufs b).blockno ⊥
      (lock_buf me b s) (lock_buf_lem ⊥ me b s ok at)
