-- ===== src/Cache/Coherence.antt =====
-- Which buffers agree with the disk, and how the functions of xv6-public/bio.c keep that.
use os.Base.{
  ℕ, ◌≡◌, ◌≢◌, refl, sym, ◌∙◌, subst, ◌⊎◌, inl, inr, true, false, List, ◌==◌, Bool-cases, ==_iff,
}
use os.Cache.Defs.{
  Block, Buf, State, Got, got, waits, panics, update, set_buf, is_block, is_unused, acquiresleep,
  holdingsleep, lock_buf,
}
use os.Cache.Search.{In}

pub true≢false : true ≢ false
true≢false e = cc

pub false≢true : false ≢ true
false≢true e = cc

-- Two buffers of one block of a device.
abbrev pub Same : Buf → Buf → Type 0
Same x y = (x.dev ≡ y.dev) × (x.blockno ≡ y.blockno) × (x.dev ≢ 0)

-- A dirty buffer is valid, a valid one is of device 1, and one that nobody holds, valid and not
-- dirty, has the bytes of its block.
pub record IsSound (disk : ℕ → Block) (x : Buf) : Type 0 where
  pub pinned : x.dirty ≡ true → x.valid ≡ true
  pub of_disk : x.valid ≡ true → x.dev ≡ 1
  pub clean : x.lock.locked ≡ false → x.valid ≡ true → x.dirty ≡ false → x.contents ≡ disk x.blockno

pub record IsValid (s : State) : Type 0 where
  pub distinct : (b c : ℕ) → In b s.order → In c s.order → Same (s.bufs b) (s.bufs c) → b ≡ c
  pub sound : (b : ℕ) → In b s.order → IsSound s.disk (s.bufs b)

pub update-same : {A : Type 0} (f : ℕ → A) (a : ℕ) (v : A) → update f a v a ≡ v
update-same f a v = rw ((==_iff a a).1 refl) refl

pub update-cases :
    {A : Type 0} (f : ℕ → A) (a : ℕ) (v : A) (x : ℕ)
    → ((x ≡ a) × (update f a v x ≡ v)) ⊎ (update f a v x ≡ f x)
update-cases f a v x = elim (Bool-cases (x == a)) [
  | inl z ↦ inl ((==_iff x a).0 z, rw (z) refl)
  | inr z ↦ inr (rw (z) refl)
]

turned : (x y : Buf) → Same x y → Same y x
turned _ _ (d, n, here) = (sym d, sym n, λ e. here (d ∙ e))

carried : {x x' y y' : Buf} → x ≡ x' → y ≡ y' → Same x y → Same x' y'
carried {x' = x'} {y = y} e e' same = subst (Same x') e' (subst (λ w. Same w y) e same)

abbrev pub Distinct : State → Type 0
Distinct s = (b c : ℕ) → In b s.order → In c s.order → Same (s.bufs b) (s.bufs c) → b ≡ c

pub set_buf-Distinct :
    (s : State)
    → Distinct s
    → (b : ℕ) (v : Buf) → ((c : ℕ) → In c s.order → Same v (s.bufs c) → b ≡ c)
    → Distinct (set_buf b v s)
set_buf-Distinct s distinct b v apart x y at at' same = elim (update-cases s.bufs b v x) [
  | inl (here, e) ↦ elim (update-cases s.bufs b v y) [
    | inl (here', _) ↦ here ∙ sym here'
    | inr e' ↦ here ∙ apart y at' (carried e e' same)
  ]
  | inr e ↦ elim (update-cases s.bufs b v y) [
    | inl (here', e') ↦ sym (here' ∙ apart x at (turned (s.bufs x) v (carried e e' same)))
    | inr e' ↦ distinct x y at at' (carried e e' same)
  ]
]

pub set_buf-IsValid :
    {s : State}
    → IsValid s
    → (b : ℕ) (v : Buf) → ((c : ℕ) → In c s.order → Same v (s.bufs c) → b ≡ c)
    → IsSound s.disk v
    → IsValid (set_buf b v s)
set_buf-IsValid {s} ok b v apart new = record {
  distinct = set_buf-Distinct s ok.distinct b v apart;
  sound = λ x at. elim (update-cases s.bufs b v x) [
    | inl (_, e) ↦ subst (IsSound s.disk) (sym e) new
    | inr e ↦ subst (IsSound s.disk) (sym e) (ok.sound x at)
  ];
}

-- A buffer of the same block is the same buffer.
pub change-Distinct :
    {s : State}
    → IsValid s
    → (b : ℕ) → In b s.order
    → (v : Buf) → v.dev ≡ (s.bufs b).dev
    → v.blockno ≡ (s.bufs b).blockno
    → (c : ℕ) → In c s.order
    → Same v (s.bufs c)
    → b ≡ c
change-Distinct ok b at v e e' c at' (d, n, here) =
    ok.distinct b c at at' (sym e ∙ d, sym e' ∙ n, λ z. here (e ∙ z))

-- The same for a change that leaves the buffer with its block.
pub change-IsValid :
    {s : State}
    → IsValid s
    → (b : ℕ) → In b s.order
    → (v : Buf) → v.dev ≡ (s.bufs b).dev
    → v.blockno ≡ (s.bufs b).blockno
    → IsSound s.disk v
    → IsValid (set_buf b v s)
change-IsValid {s} ok b at v e e' new = set_buf-IsValid ok b v (change-Distinct ok b at v e e') new

-- A buffer that a call has locked for its caller: it is one of the list for the block asked for, the
-- list and the disk are as before, and its bytes are those of the block if it is valid and not dirty.
pub record Locked (order : List ℕ) (disk : ℕ → Block) (me dev blockno b : ℕ) (s' : State)
    : Type 0 where
  pub of_list : In b order
  pub ok : IsValid s'
  pub same_order : s'.order ≡ order
  pub same_disk : s'.disk ≡ disk
  pub held : holdingsleep me (s'.bufs b).lock ≡ true
  pub its_dev : (s'.bufs b).dev ≡ dev
  pub its_block : (s'.bufs b).blockno ≡ blockno
  pub fresh :
      (s'.bufs b).valid ≡ true → (s'.bufs b).dirty ≡ false → (s'.bufs b).contents ≡ disk blockno

-- A buffer whose lock another holder has; nothing else is changed but its count.
pub record Waiting (order : List ℕ) (disk : ℕ → Block) (dev blockno b : ℕ) (s' : State)
    : Type 0 where
  pub of_list : In b order
  pub ok : IsValid s'
  pub same_order : s'.order ≡ order
  pub same_disk : s'.disk ≡ disk
  pub taken : (s'.bufs b).lock.locked ≡ true
  pub its_dev : (s'.bufs b).dev ≡ dev
  pub its_block : (s'.bufs b).blockno ≡ blockno

-- No buffer of the list has the block, and each is in use or dirty.
abbrev pub IsFull : State → ℕ → ℕ → Type 0
IsFull s dev blockno =
    (b : ℕ)
    → In b s.order
    → (is_block dev blockno (s.bufs b) ≡ false) × (is_unused (s.bufs b) ≡ false)

-- How a call that locks a buffer may end, with a given condition for a panic.
abbrev pub Locks : List ℕ → (ℕ → Block) → ℕ → ℕ → ℕ → Type 0 → Got → Type 0
Locks order disk me dev blockno Panic (got b s) = Locked order disk me dev blockno b s
Locks order disk me dev blockno Panic (waits b s) = Waiting order disk dev blockno b s
Locks order disk me dev blockno Panic panics = Panic

pub lock_buf_lem :
    (Panic : Type 0) (me b : ℕ) (s : State)
    → IsValid s
    → In b s.order
    → Locks s.order s.disk me (s.bufs b).dev (s.bufs b).blockno Panic (lock_buf me b s)
unfolding lock_buf acquiresleep holdingsleep
lock_buf_lem Panic me b s ok at = elim (Bool-cases (s.bufs b).lock.locked) [
  | inl z ↦
      let waiting : lock_buf me b s ≡ waits b s = rw (z, lock_buf, acquiresleep) refl in
      subst (Locks s.order s.disk me (s.bufs b).dev (s.bufs b).blockno Panic) (sym waiting)
        (record {
          of_list = at;
          ok = ok;
          same_order = refl;
          same_disk = refl;
          taken = z;
          its_dev = refl;
          its_block = refl;
        })
  | inr z ↦
      let mine : Buf = record (s.bufs b) { lock = record { locked = true; pid = me } } in
      let locked : lock_buf me b s ≡ got b (set_buf b mine s) =
        rw (z, lock_buf, acquiresleep) refl in
      let here : update s.bufs b mine b ≡ mine = update-same s.bufs b mine in
      let old : IsSound s.disk (s.bufs b) = ok.sound b at in
      subst (Locks s.order s.disk me (s.bufs b).dev (s.bufs b).blockno Panic) (sym locked) (record {
        of_list = at;
        ok = change-IsValid ok b at mine refl refl (record {
          pinned = old.pinned;
          of_disk = old.of_disk;
          clean = λ e. absurd (true≢false e);
        });
        same_order = refl;
        same_disk = refl;
        held = rw (here) ((==_iff me me).1 refl);
        its_dev = rw (here) refl;
        its_block = rw (here) refl;
        fresh = rw (here) (old.clean z);
      })
]
