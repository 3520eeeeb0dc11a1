-- ===== src/Cache/Releases.antt =====
-- `brelse` of xv6-public/bio.c.
use os.Base.{
  ℕ, ◌≡◌, refl, sym, subst, inl, inr, ◌↔◌, true, false, Option, none, some, List, ◌∷◌, ◌==◌, ◌+◌,
  ◌-◌, ◌%◌, Bool-cases,
}
use os.Cache.Defs.{Buf, State, u32, update, set_buf, holdingsleep, releasesleep, brelse, without}
use os.Cache.Search.{In, In-without, without-In}
use os.Cache.Coherence.{IsValid, update-same, change-IsValid}

-- What `brelse` leaves behind.
pub record Released (s : State) (b : ℕ) (s' : State) : Type 0 where
  pub ok : IsValid s'
  pub same_disk : s'.disk ≡ s.disk
  pub same_bufs : (x : ℕ) → In x s'.order ↔ In x s.order
  pub given_up : s'.bufs b ≡ record (s.bufs b) {
    lock = record { locked = false; pid = 0 };
    refcnt = ((s.bufs b).refcnt + u32 - 1) % u32;
  }

abbrev pub Releases : ℕ → ℕ → State → Option State → Type 0
Releases me b s none = holdingsleep me (s.bufs b).lock ≡ false
Releases me b s (some s') = (holdingsleep me (s.bufs b).lock ≡ true) × Released s b s'

-- A list with the same buffers in another order.
reordered-IsValid :
    (s : State) (order : List ℕ)
    → IsValid s
    → ((x : ℕ) → In x order → In x s.order)
    → IsValid (record s { order = order })
reordered-IsValid s order ok back = record {
  distinct = λ b c at at' same. ok.distinct b c (back b at) (back c at') same;
  sound = λ b at. ok.sound b (back b at);
}

In-front : (b x : ℕ) (order : List ℕ) → In b order → In x (b ∷ without b order) ↔ In x order
In-front b x order at = (
  λ at'. elim at' [
    | inl here ↦ subst (λ y. In y order) (sym here) at
    | inr later ↦ without-In b x order later
  ],
  In-without b x order,
)

-- In a valid state `brelse` of a buffer of the list that is dirty or as on the disk leaves its lock
-- free and without an owner, takes one reference off, and keeps the buffers of the list, the disk and a valid state. It
-- panics just if the caller does not hold the buffer.
pub brelse_lem :
    (me b : ℕ) (s : State)
    → IsValid s
    → In b s.order
    → ((s.bufs b).valid ≡ true
        → (s.bufs b).dirty ≡ false
        → (s.bufs b).contents ≡ s.disk (s.bufs b).blockno)
    → Releases me b s (brelse me b s)
unfolding brelse releasesleep
brelse_lem me b s ok at fresh = elim (Bool-cases (holdingsleep me (s.bufs b).lock)) [
  | inr h ↦ let e : brelse me b s ≡ none = rw (h, brelse) refl in subst (Releases me b s) (sym e) h
  | inl h ↦ elim (Bool-cases (v.refcnt == 0)) [
    | inl z ↦
        let e : brelse me b s
            ≡ some (record s { bufs = update s.bufs b v; order = b ∷ without b s.order }) =
          rw (h, z, brelse) refl in
        subst (Releases me b s) (sym e) (
          h,
          record {
            ok =
                reordered-IsValid s1 (b ∷ without b s.order) ok1 (λ x. (In-front b x s.order at).0);
            same_disk = refl;
            same_bufs = λ x. In-front b x s.order at;
            given_up = update-same s.bufs b v;
          },
        )
    | inr z ↦
        let e : brelse me b s ≡ some s1 = rw (h, z, brelse) refl in
        subst (Releases me b s) (sym e) (
          h,
          record {
            ok = ok1;
            same_disk = refl;
            same_bufs = λ x. (λ a. a, λ a. a);
            given_up = update-same s.bufs b v;
          },
        )
  ]
]
  where
    v : Buf
    v = record (s.bufs b) {
      lock = releasesleep (s.bufs b).lock;
      refcnt = ((s.bufs b).refcnt + u32 - 1) % u32;
    }

    s1 : State
    s1 = set_buf b v s

    ok1 : IsValid s1
    ok1 = change-IsValid ok b at v refl refl (record {
      pinned = (ok.sound b at).pinned;
      of_disk = (ok.sound b at).of_disk;
      clean = λ _. fresh;
    })
