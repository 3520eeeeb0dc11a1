-- ===== src/Inode/Bmap.antt =====
-- `bmap` of xv6-public/fs.c.
use os.Base.{
  ℕ, ◌+◌, ◌-◌, ◌≤◌, ◌<◌, ◌≡◌, ◌≢◌, refl, sym, ap, ◌∙◌, subst, ◌⊎◌, inl, inr, true, false, Option,
  none, some, ◌==◌, ltb, Bool-cases, ==_iff, arith,
}
use os.Blocks.Defs.{Fs}
use os.Blocks.Allocation.{in_use}
use os.Inode.Defs.{ndirect, nindirect, Inode, word_at, own_addr, indirect_addr, bmap}
use os.Inode.Words.{word_at_zero}
use os.Inode.Slots.{IsData, New, WellFormed, slot, slot_direct, slot_unset, slot_indirect}
use os.Inode.Own.{
  Owned, Owns, own_addr-Owns, owned_cases, owned_same, owned_still, owned_apart, owned_size,
  owned_still_used, owned_used_before,
}
use os.Inode.Indirect.{Entered, Enters, indirect_addr-Enters}

-- The block n of an inode after it was asked for.
pub record Mapped (n : ℕ) (ip : Inode) (s : Fs) (a : ℕ) (ip' : Inode) (s' : Fs) : Type 0 where
  pub ok : WellFormed ip' s'
  pub nonzero : a ≢ 0
  pub names : slot ip' s' n ≡ a
  pub others : (m : ℕ) → m ≢ n → slot ip' s' m ≡ slot ip s m
  pub kept : slot ip s n ≢ 0 → (ip' ≡ ip) × (s' ≡ s)
  pub new : slot ip s n ≡ 0 → (in_use s a ≡ false) × (s'.blocks a ≡ (λ _ _. false))
  pub contents : (x : ℕ) → IsData s x → x ≢ ip.addrs ndirect → s'.blocks x ≡ s.blocks x

-- All blocks of the disk but at most one are in use.
abbrev pub AlmostFull : Fs → Type 0
AlmostFull s = (i : ℕ) × ((x : ℕ) → x < s.size → x ≢ i → in_use s x ≡ true)

abbrev pub Maps : ℕ → Inode → Fs → Option (ℕ × Inode × Fs) → Type 0
Maps n ip s none = (ndirect + nindirect ≤ n) ⊎ ((slot ip s n ≡ 0) × AlmostFull s)
Maps n ip s (some (a, ip', s')) = Mapped n ip s a ip' s'

-- Slots of inodes with the same addresses and words.
slot_same :
    (ip ip' : Inode) (s s' : Fs) (m : ℕ)
    → (m < ndirect → ip'.addrs m ≡ ip.addrs m)
    → ip'.addrs ndirect ≡ ip.addrs ndirect
    → (ip.addrs ndirect ≢ 0
        → ndirect ≤ m
        → word_at (s'.blocks (ip.addrs ndirect)) (m - ndirect)
          ≡ word_at (s.blocks (ip.addrs ndirect)) (m - ndirect))
    → slot ip' s' m ≡ slot ip s m
slot_same ip ip' s s' m low ind words = elim (Bool-cases (ltb m ndirect)) [
  | inl z ↦
      slot_direct ip' s' m (below m z) ∙ low (below m z) ∙ sym (slot_direct ip s m (below m z))
  | inr z ↦ elim (Bool-cases (ip.addrs ndirect == 0)) [
    | inl y ↦
        let e : ip.addrs ndirect ≡ 0 = (==_iff (ip.addrs ndirect) 0).0 y in
        slot_unset ip' s' m (above m z) (ind ∙ e) ∙ sym (slot_unset ip s m (above m z) e)
    | inr y ↦
        let ne : ip.addrs ndirect ≢ 0 = set (ip.addrs ndirect) y in
        slot_indirect ip' s' m (above m z) (λ q. ne (sym ind ∙ q))
        ∙ ap (λ t. word_at (s'.blocks t) (m - ndirect)) ind
        ∙ words ne (above m z)
        ∙ sym (slot_indirect ip s m (above m z) ne)
  ]
]
  where
    below : (m : ℕ) → ltb m ndirect ≡ true → m < ndirect
    below m z = ground arith

    above : (m : ℕ) → ltb m ndirect ≡ false → ndirect ≤ m
    above m z = ground arith

    set : (n : ℕ) → (n == 0) ≡ false → n ≢ 0
    set n z = ground arith

-- A direct block.
direct-Maps :
    (n : ℕ) (ip : Inode) (s : Fs) (o : Option (ℕ × Inode × Fs))
    → n < ndirect
    → WellFormed ip s
    → Owns n ip s o
    → Maps n ip s o
direct-Maps n ip s none h ok (unset, full) =
    inr (slot_direct ip s n h ∙ unset, (0, λ x h _. full x h))
direct-Maps n ip s (some (a, ip', s')) h ok o =
    let ind : ip'.addrs ndirect ≡ ip.addrs ndirect = o.others ndirect (λ q. omega arith) in
    record {
      ok = o.ok;
      nonzero = o.nonzero;
      names = slot_direct ip' s' n h ∙ o.names;
      others = λ m ne.
          slot_same ip ip' s s' m (λ _. o.others m ne) ind
            (λ set _.
              ap (λ d. word_at d (m - ndirect))
                (owned_same o (ip.addrs ndirect) (ok.own ndirect (omega arith) set)));
      kept = λ ne. o.kept (λ q. ne (slot_direct ip s n h ∙ q));
      new = λ e.
          let new : New a s s' = o.new (sym (slot_direct ip s n h) ∙ e) in (new.fresh, new.blank);
      contents = λ x d _. owned_same o x d;
    }

-- An inode whose indirect block was asked for, and then an entry of that block.
module _ (n : ℕ) (ip : Inode) (s : Fs) (high : ndirect ≤ n) (low : n - ndirect < nindirect)
    (ok : WellFormed ip s) (ind : ℕ) (ip1 : Inode) (s1 : Fs)
    (o : Owned ndirect ip s ind ip1 s1) where
  slot_after : (m : ℕ) → slot ip1 s1 m ≡ slot ip s m
  slot_after m = elim (owned_cases o) [
    | inr (_, e, e', _) ↦ ap (λ p. slot p s1 m) e ∙ ap (λ t. slot ip t m) e'
    | inl (unset, new) ↦ elim (Bool-cases (ltb m ndirect)) [
      | inl z ↦
          slot_direct ip1 s1 m (below m z)
          ∙ o.others m (λ q. less m z q)
          ∙ sym (slot_direct ip s m (below m z))
      | inr z ↦
          slot_indirect ip1 s1 m (above m z) (λ q. o.nonzero (sym o.names ∙ q))
          ∙ ap (λ t. word_at (s1.blocks t) (m - ndirect)) o.names
          ∙ ap (λ d. word_at d (m - ndirect)) new.blank
          ∙ word_at_zero (m - ndirect)
          ∙ sym (slot_unset ip s m (above m z) unset)
    ]
  ]
    where
      below : (m : ℕ) → ltb m ndirect ≡ true → m < ndirect
      below m z = ground arith

      above : (m : ℕ) → ltb m ndirect ≡ false → ndirect ≤ m
      above m z = ground arith

      less : (m : ℕ) → ltb m ndirect ≡ true → m ≡ ndirect → ⊥
      less m z q = ground arith

  set1 : ip1.addrs ndirect ≢ 0
  set1 q = o.nonzero (sym o.names ∙ q)

  entered-Mapped :
      (a : ℕ) (ip2 : Inode) (s2 : Fs)
      → Entered (n - ndirect) ip1 s1 a ip2 s2
      → Mapped n ip s a ip2 s2
  entered-Mapped a ip2 s2 t = record {
    ok = t.ok;
    nonzero = t.nonzero;
    names = ap (λ p. slot p s2 n) t.same_inode ∙ slot_indirect ip1 s2 n high set1 ∙ t.names;
    others = λ m ne.
        slot_same ip1 ip2 s1 s2 m (λ _. ap (λ p. p.addrs m) t.same_inode)
          (ap (λ p. p.addrs ndirect) t.same_inode)
          (λ _ h. t.others (m - ndirect) (λ q. ne (level m h q)))
        ∙ slot_after m;
    kept = λ ne.
        let set : ip.addrs ndirect ≢ 0 = λ q. ne (slot_unset ip s n high q) in
        let (e, e') = o.kept set in
        (
          t.same_inode ∙ e,
          t.kept (λ q. ne (sym (slot_after n) ∙ slot_indirect ip1 s1 n high set1 ∙ q)) ∙ e',
        );
    new = λ e.
        let (inside, free, blank) =
          t.new (sym (slot_indirect ip1 s1 n high set1) ∙ slot_after n ∙ e) in
        (unused a (subst (λ k. a < k) (owned_size o) inside) free, blank);
    contents = λ x d ne.
        t.contents x (owned_still o x d) (λ q. owned_apart o x d ne (q ∙ o.names))
        ∙ owned_same o x d;
  }
    where
      level : (m : ℕ) → ndirect ≤ m → m - ndirect ≡ n - ndirect → m ≡ n
      level m h q = omega arith

      clash : true ≡ false → ⊥
      clash e = cc

      unused : (a : ℕ) → a < s.size → in_use s1 a ≡ false → in_use s a ≡ false
      unused a h free = elim (Bool-cases (in_use s a)) [
        | inr z ↦ z
        | inl z ↦ absurd (clash (sym (owned_still_used o a h z) ∙ free))
      ]

  concluded : (r : Option (ℕ × Inode × Fs)) → Enters (n - ndirect) ip1 s1 r → Maps n ip s r
  concluded none (unset, full) = inr (
    sym (slot_after n) ∙ slot_indirect ip1 s1 n high set1 ∙ unset,
    (
      ind,
      λ x h ne. owned_used_before o x h ne (full x (subst (λ k. x < k) (sym (owned_size o)) h)),
    ),
  )
  concluded (some (a, ip2, s2)) t = entered-Mapped a ip2 s2 t

  indirect-Maps : Maps n ip s (indirect_addr (n - ndirect) ind ip1 s1)
  indirect-Maps =
      subst (λ t. Maps n ip s (indirect_addr (n - ndirect) t ip1 s1)) o.names
        (concluded (indirect_addr (n - ndirect) (ip1.addrs ndirect) ip1 s1)
          (indirect_addr-Enters (n - ndirect) ip1 s1 low o.ok set1))

-- For a well-formed inode `bmap` gives a block number that is not 0 and that the inode then names
-- at n. A block that was there is given with nothing changed, and one that was not is a free
-- block, zeroed. All other blocks that the inode names, the contents of all data blocks but the
-- indirect one, and well-formedness are kept. It panics only if n is too large, or the block was
-- not there and at most one block of the disk is free.
pub bmap-Maps : (n : ℕ) (ip : Inode) (s : Fs) → WellFormed ip s → Maps n ip s (bmap n ip s)
unfolding bmap
bmap-Maps n ip s ok = elim (Bool-cases (ltb n ndirect)) [
  | inl z ↦
      let e : bmap n ip s ≡ own_addr n ip s = rw (z, bmap) refl in
      subst (Maps n ip s) (sym e) (
        direct-Maps n ip s (own_addr n ip s) (below n z) ok (own_addr-Owns n ip s (at_most n z) ok))
  | inr z ↦ elim (Bool-cases (ltb (n - ndirect) nindirect)) [
    | inr y ↦
        let e : bmap n ip s ≡ none = rw (z, y, bmap) refl in
        subst (Maps n ip s) (sym e) (inl (beyond n z y))
    | inl y ↦
        let e : bmap n ip s ≡ entry (own_addr ndirect ip s) = rw (z, y, bmap) refl in
        subst (Maps n ip s) (sym e) (
          go (above n z) (inside n y) (own_addr ndirect ip s)
            (own_addr-Owns ndirect ip s (omega arith) ok))
  ]
]
  where
    entry : Option (ℕ × Inode × Fs) → Option (ℕ × Inode × Fs)
    entry r = elim r [ none ↦ none | some (ind, ip', s') ↦ indirect_addr (n - ndirect) ind ip' s' ]

    go :
        ndirect ≤ n
        → n - ndirect < nindirect
        → (r : Option (ℕ × Inode × Fs)) → Owns ndirect ip s r
        → Maps n ip s (entry r)
    go high low none (unset, full) = inr (slot_unset ip s n high unset, (0, λ x h _. full x h))
    go high low (some (ind, ip1, s1)) o = indirect-Maps n ip s high low ok ind ip1 s1 o

    below : (n : ℕ) → ltb n ndirect ≡ true → n < ndirect
    below n z = ground arith

    at_most : (n : ℕ) → ltb n ndirect ≡ true → n ≤ ndirect
    at_most n z = ground arith

    above : (n : ℕ) → ltb n ndirect ≡ false → ndirect ≤ n
    above n z = ground arith

    inside : (n : ℕ) → ltb (n - ndirect) nindirect ≡ true → n - ndirect < nindirect
    inside n y = ground arith

    beyond :
        (n : ℕ)
        → ltb n ndirect ≡ false
        → ltb (n - ndirect) nindirect ≡ false
        → ndirect + nindirect ≤ n
    beyond n z y = ground arith
