-- ===== src/Inode/Own.antt =====
-- The addresses in an inode itself, xv6-public/fs.c.
use os.Base.{
  ℕ, ◌≤◌, ◌<◌, ◌≡◌, ◌≢◌, refl, sym, ap, ◌∙◌, subst, ◌⊎◌, inl, inr, true, false, Option, none, some,
  ◌==◌, Bool-cases, Option-cases, ==_iff, arith,
}
use os.Blocks.Defs.{Fs, balloc}
use os.Blocks.Allocation.{in_use, Allocates, balloc-Allocates}
use os.Inode.Defs.{ndirect, nindirect, Inode, word_at, set_addr, own_addr}
use os.Inode.Words.{word_at_zero}
use os.Inode.Slots.{IsData, New, balloc-New, WellFormed}

abbrev pub IsFull : Fs → Type 0
IsFull s = (x : ℕ) → x < s.size → in_use s x ≡ true

-- The address i of an inode after it was asked for.
pub record Owned (i : ℕ) (ip : Inode) (s : Fs) (a : ℕ) (ip' : Inode) (s' : Fs) : Type 0 where
  pub ok : WellFormed ip' s'
  pub nonzero : a ≢ 0
  pub names : ip'.addrs i ≡ a
  pub others : (m : ℕ) → m ≢ i → ip'.addrs m ≡ ip.addrs m
  pub kept : ip.addrs i ≢ 0 → (ip' ≡ ip) × (s' ≡ s)
  pub new : ip.addrs i ≡ 0 → New a s s'

abbrev pub Owns : ℕ → Inode → Fs → Option (ℕ × Inode × Fs) → Type 0
Owns i ip s none = (ip.addrs i ≡ 0) × IsFull s
Owns i ip s (some (a, ip', s')) = Owned i ip s a ip' s'

-- An inode with a new block as its address i.
added :
    (i y : ℕ) (ip : Inode) (s s' : Fs)
    → i ≤ ndirect
    → WellFormed ip s
    → ip.addrs i ≡ 0
    → New y s s'
    → Owned i ip s y (set_addr i y ip) s'
added i y ip s s' low ok unset new = record {
  ok = record {
    laid = new.laid;
    own = λ m h ne. elim (which m) [
      | inl e ↦ subst (IsData s') (sym e) new.data_block
      | inr e ↦ subst (IsData s') (sym e) (new.still (ip.addrs m) (ok.own m h (λ q. ne (e ∙ q))))
    ];
    leaf = λ ne. leaf_at ((set_addr i y ip).addrs ndirect) (which ndirect) ne;
  };
  nonzero = new.nonzero;
  names = rw ((==_iff i i).1 refl) refl;
  others = λ m ne. rw (differ m ne) refl;
  kept = λ ne. absurd (ne unset);
  new = λ _. new;
}
  where
    differ : (m : ℕ) → m ≢ i → (m == i) ≡ false
    differ m ne = ground arith

    which : (m : ℕ) → ((set_addr i y ip).addrs m ≡ y) ⊎ ((set_addr i y ip).addrs m ≡ ip.addrs m)
    which m = elim (Bool-cases (m == i)) [ inl z ↦ inl (rw (z) refl) | inr z ↦ inr (rw (z) refl) ]

    old_leaf :
        ip.addrs ndirect ≢ 0
        → (j : ℕ) → j < nindirect
        → word_at (s'.blocks (ip.addrs ndirect)) j ≢ 0
        → IsData s' (word_at (s'.blocks (ip.addrs ndirect)) j)
    old_leaf ne j h set =
        let same : word_at (s'.blocks (ip.addrs ndirect)) j
            ≡ word_at (s.blocks (ip.addrs ndirect)) j =
          ap (λ d. word_at d j) (new.same (ip.addrs ndirect) (ok.own ndirect (omega arith) ne)) in
        subst (IsData s') (sym same) (
          new.still (word_at (s.blocks (ip.addrs ndirect)) j)
            (ok.leaf ne j h (λ q. set (same ∙ q))))

    leaf_at :
        (t : ℕ)
        → (t ≡ y) ⊎ (t ≡ ip.addrs ndirect)
        → t ≢ 0
        → (j : ℕ) → j < nindirect
        → word_at (s'.blocks t) j ≢ 0
        → IsData s' (word_at (s'.blocks t) j)
    leaf_at t (inl e) ne j h set = absurd (
        set
          (ap (λ x. word_at (s'.blocks x) j) e ∙ ap (λ d. word_at d j) new.blank ∙ word_at_zero j))
    leaf_at t (inr e) ne j h set =
        subst (λ x. IsData s' (word_at (s'.blocks x) j)) (sym e)
          (old_leaf (λ q. ne (e ∙ q)) j h (λ q. set (ap (λ x. word_at (s'.blocks x) j) e ∙ q)))

pub own_addr-Owns :
    (i : ℕ) (ip : Inode) (s : Fs) → i ≤ ndirect → WellFormed ip s → Owns i ip s (own_addr i ip s)
unfolding own_addr
own_addr-Owns i ip s low ok = elim (Bool-cases (ip.addrs i == 0)) [
  | inr z ↦
      let e : own_addr i ip s ≡ some (ip.addrs i, ip, s) = rw (z, own_addr) refl in
      subst (Owns i ip s) (sym e) (record {
        ok = ok;
        nonzero = λ q. false≢true (sym z ∙ (==_iff (ip.addrs i) 0).1 q);
        names = refl;
        others = λ m _. refl;
        kept = λ _. (refl, refl);
        new = λ q. absurd (false≢true (sym z ∙ (==_iff (ip.addrs i) 0).1 q));
      })
  | inl z ↦ elim (Option-cases (balloc s)) [
    | inl y ↦
        let e : own_addr i ip s ≡ none = rw (z, own_addr, y) refl in
        subst (Owns i ip s) (sym e)
          ((==_iff (ip.addrs i) 0).0 z, subst (Allocates s) y (balloc-Allocates s))
    | inr ((a, s'), y) ↦
        let e : own_addr i ip s ≡ some (a, set_addr i a ip, s') = rw (z, own_addr, y) refl in
        subst (Owns i ip s) (sym e)
          (added i a ip s s' low ok ((==_iff (ip.addrs i) 0).0 z) (balloc-New s s' a ok.laid y))
  ]
]
  where
    false≢true : false ≡ true → ⊥
    false≢true e = cc

-- Either the address was there before, and nothing changed, or its block is new.
module _ {i : ℕ} {ip : Inode} {s : Fs} {a : ℕ} {ip' : Inode} {s' : Fs}
    (o : Owned i ip s a ip' s') where
  pub owned_cases :
      ((ip.addrs i ≡ 0) × New a s s')
      ⊎ ((ip.addrs i ≢ 0) × (ip' ≡ ip) × (s' ≡ s) × (ip.addrs i ≡ a))
  owned_cases = elim (Bool-cases (ip.addrs i == 0)) [
    | inl z ↦ inl ((==_iff (ip.addrs i) 0).0 z, o.new ((==_iff (ip.addrs i) 0).0 z))
    | inr z ↦
        let ne : ip.addrs i ≢ 0 = set (ip.addrs i) z in
        let (e, e') = o.kept ne in inr (ne, e, e', sym (ap (λ p. p.addrs i) e) ∙ o.names)
  ]
    where
      set : (n : ℕ) → (n == 0) ≡ false → n ≢ 0
      set n z = ground arith

  pub owned_same : (x : ℕ) → IsData s x → s'.blocks x ≡ s.blocks x
  owned_same x d = elim owned_cases [
    | inl (_, new) ↦ new.same x d
    | inr (_, _, e, _) ↦ ap (λ t. t.blocks x) e
  ]

  pub owned_still : (x : ℕ) → IsData s x → IsData s' x
  owned_still x d = elim owned_cases [
    | inl (_, new) ↦ new.still x d
    | inr (_, _, e, _) ↦ subst (λ t. IsData t x) (sym e) d
  ]

  pub owned_apart : (x : ℕ) → IsData s x → x ≢ ip.addrs i → x ≢ a
  owned_apart x d ne q = elim owned_cases [
    | inl (_, new) ↦ clash (sym d.used ∙ ap (in_use s) q ∙ new.fresh)
    | inr (_, _, _, e) ↦ ne (q ∙ sym e)
  ]
    where
      clash : true ≡ false → ⊥
      clash e = cc

  pub owned_size : s'.size ≡ s.size
  owned_size = elim owned_cases [
    | inl (_, new) ↦ new.same_size
    | inr (_, _, e, _) ↦ ap (λ t. t.size) e
  ]

  pub owned_still_used : (x : ℕ) → x < s.size → in_use s x ≡ true → in_use s' x ≡ true
  owned_still_used x h u = elim owned_cases [
    | inl (_, new) ↦ new.still_used x h u
    | inr (_, _, e, _) ↦ subst (λ t. in_use t x ≡ true) (sym e) u
  ]

  pub owned_used_before : (x : ℕ) → x < s.size → x ≢ a → in_use s' x ≡ true → in_use s x ≡ true
  owned_used_before x h ne u = elim owned_cases [
    | inl (_, new) ↦ new.used_before x h ne u
    | inr (_, _, e, _) ↦ subst (λ t. in_use t x ≡ true) e u
  ]
