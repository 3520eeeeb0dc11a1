-- ===== src/Cache/Writes.antt =====
-- `bwrite` and `brelse` of xv6-public/bio.c.
use os.Base.{
  ℕ, ◌≡◌, ◌≢◌, refl, sym, ap, ◌∙◌, subst, ◌⊎◌, inl, inr, true, false, Option, none, some, ◌==◌, leb,
  ◌≤◌, if◌then◌else◌, Bool-cases, ==_iff, leb→le, arith,
}
use os.Cache.Defs.{Buf, State, update, set_buf, holdingsleep, iderw, bwrite}
use os.Cache.Search.{In}
use os.Cache.Reads.{iderw_panics}
use os.Cache.Coherence.{
  true≢false, Same, IsSound, IsValid, set_buf-Distinct, change-Distinct, update-same, update-cases,
  change-IsValid,
}

-- The state once the bytes of a buffer are on the disk.
abbrev pub written : ℕ → Buf → State → State
written b v s = record s { disk = update s.disk v.blockno v.contents; bufs = update s.bufs b v }

pub written-IsValid :
    {s : State}
    → IsValid s
    → (b : ℕ) → In b s.order
    → (v : Buf) → v.dev ≡ (s.bufs b).dev
    → v.blockno ≡ (s.bufs b).blockno
    → v.valid ≡ true
    → v.dev ≡ 1
    → IsValid (written b v s)
written-IsValid {s} ok b at v e e' valid dev = record {
  distinct = set_buf-Distinct s ok.distinct b v (change-Distinct ok b at v e e');
  sound = λ x at'. elim (update-cases s.bufs b v x) [
    | inl (_, y) ↦ subst (IsSound (written b v s).disk) (sym y) (record {
      pinned = λ _. valid;
      of_disk = λ _. dev;
      clean = λ _ _ _. sym (update-same s.disk v.blockno v.contents);
    })
    | inr y ↦
        let old : IsSound s.disk (s.bufs x) = ok.sound x at' in
        subst (IsSound (written b v s).disk) (sym y) (record {
          pinned = old.pinned;
          of_disk = old.of_disk;
          clean = λ free z d. elim (update-cases s.disk v.blockno v.contents (s.bufs x).blockno) [
            | inr z' ↦ old.clean free z d ∙ sym z'
            | inl (n, z') ↦
                let same : Same v (s.bufs x) =
                  (dev ∙ sym (old.of_disk z), sym n, λ o. zero≢one v.dev o dev) in
                let here : b ≡ x = change-Distinct ok b at v e e' x at' same in
                ap (λ w. w.contents)
                  (sym y ∙ ap (update s.bufs b v) (sym here) ∙ update-same s.bufs b v)
                ∙ sym z'
          ];
        })
  ];
}
  where
    zero≢one : (n : ℕ) → n ≡ 0 → n ≡ 1 → ⊥
    zero≢one n e e' = omega arith

iderw_writes :
    (disksize me b : ℕ) (s : State)
    → holdingsleep me (s.bufs b).lock ≡ true
    → (s.bufs b).dirty ≡ true
    → ((s.bufs b).dev == 1) ≡ true
    → leb disksize (s.bufs b).blockno ≡ false
    → iderw disksize me b s ≡ some (written b (record (s.bufs b) { dirty = false; valid = true }) s)
unfolding iderw
iderw_writes disksize me b s held d dev n = elim (Bool-cases (s.bufs b).valid) [
  | inl v ↦ rw (held, v, dev, n, d) refl
  | inr v ↦ rw (held, v, dev, n, d) refl
]

-- What `bwrite` leaves behind.
pub record Written (s : State) (b : ℕ) (s' : State) : Type 0 where
  pub ok : IsValid s'
  pub same_order : s'.order ≡ s.order
  pub stored :
      (n : ℕ) → s'.disk n ≡ (if n == (s.bufs b).blockno then (s.bufs b).contents else s.disk n)
  pub result : s'.bufs b ≡ record (s.bufs b) { dirty = false; valid = true }
  pub others : (c : ℕ) → c ≢ b → s'.bufs c ≡ s.bufs c

abbrev pub Writes : ℕ → ℕ → ℕ → State → Option State → Type 0
Writes disksize me b s none =
    (holdingsleep me (s.bufs b).lock ≡ false) ⊎ (disksize ≤ (s.bufs b).blockno)
Writes disksize me b s (some s') = Written s b s'

update-other : {A : Type 0} (f : ℕ → A) (a : ℕ) (v : A) (x : ℕ) → x ≢ a → update f a v x ≡ f x
update-other f a v x other = elim (update-cases f a v x) [
  | inl (here, _) ↦ absurd (other here)
  | inr e ↦ e
]

-- The buffer that `bwrite` hands to `iderw`, and the state with it.
abbrev dirtied : Buf → Buf
dirtied x = record x { dirty = true }

abbrev flushed : Buf → Buf
flushed x = record x { dirty = false; valid = true }

flushed-Written :
    (s : State) (b : ℕ)
    → IsValid s
    → In b s.order
    → (s.bufs b).valid ≡ true
    → Written s b (
        written b
          (flushed (update s.bufs b (dirtied (s.bufs b)) b))
          (set_buf b (dirtied (s.bufs b)) s))
flushed-Written s b ok at valid =
    let old : IsSound s.disk (s.bufs b) = ok.sound b at in
    let here : update s.bufs b (dirtied (s.bufs b)) b ≡ dirtied (s.bufs b) =
      update-same s.bufs b (dirtied (s.bufs b)) in
    let ok1 : IsValid (set_buf b (dirtied (s.bufs b)) s) =
      change-IsValid ok b at (dirtied (s.bufs b)) refl refl (record {
        pinned = λ _. valid;
        of_disk = old.of_disk;
        clean = λ _ _ d. absurd (true≢false d);
      }) in
    let v : Buf = flushed (update s.bufs b (dirtied (s.bufs b)) b) in
    record {
      ok = written-IsValid ok1 b at v refl refl refl (rw (here) (old.of_disk valid));
      same_order = refl;
      stored = λ n. rw (here) refl;
      result = update-same (update s.bufs b (dirtied (s.bufs b))) b v ∙ rw (here) refl;
      others = λ c other.
          update-other (update s.bufs b (dirtied (s.bufs b))) b v c other
          ∙ update-other s.bufs b (dirtied (s.bufs b)) c other;
    }

-- In a valid state `bwrite` of a valid buffer of the list stores its bytes at its block and
-- nowhere else, leaves it clean, keeps the state valid and changes no other buffer. It panics
-- only if the caller does not hold the buffer or the block is beyond the disk.
pub bwrite_lem :
    (disksize me b : ℕ) (s : State)
    → IsValid s
    → In b s.order
    → (s.bufs b).valid ≡ true
    → Writes disksize me b s (bwrite disksize me b s)
unfolding bwrite
bwrite_lem disksize me b s ok at valid = elim (Bool-cases (holdingsleep me (s.bufs b).lock)) [
  | inr h ↦
      let e : bwrite disksize me b s ≡ none = rw (h, bwrite) refl in
      subst (Writes disksize me b s) (sym e) (inl h)
  | inl h ↦
      let e : bwrite disksize me b s ≡ iderw disksize me b s1 = rw (h, bwrite) refl in
      subst (Writes disksize me b s) (sym e) (elim (Bool-cases (leb disksize (s.bufs b).blockno)) [
        | inl n ↦
            let gone : iderw disksize me b s1 ≡ none =
              iderw_panics disksize me b s1 (inr (rw (here) n)) in
            subst (Writes disksize me b s) (sym gone) (inr (leb→le disksize (s.bufs b).blockno n))
        | inr n ↦
            let done : iderw disksize me b s1 ≡ some (written b (flushed (s1.bufs b)) s1) =
              iderw_writes disksize me b s1 (rw (here) h) (rw (here) refl)
                (rw (here) ((==_iff (s.bufs b).dev 1).1 ((ok.sound b at).of_disk valid)))
                (rw (here) n) in
            subst (Writes disksize me b s) (sym done) (flushed-Written s b ok at valid)
      ])
]
  where
    s1 : State
    s1 = set_buf b (dirtied (s.bufs b)) s

    here : s1.bufs b ≡ dirtied (s.bufs b)
    here = update-same s.bufs b (dirtied (s.bufs b))
