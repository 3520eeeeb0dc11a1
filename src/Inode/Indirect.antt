-- ===== src/Inode/Indirect.antt =====
-- The addresses in the indirect block of an inode, xv6-public/fs.c.
use os.Base.{
  ℕ, ◌<◌, ◌≡◌, ◌≢◌, refl, sym, ap, ◌∙◌, subst, inl, inr, true, false, Option, none, some, ◌==◌,
  Bool-cases, Option-cases, ==_iff, arith,
}
use os.Blocks.Defs.{Block, Fs, bblock, write_block, balloc}
use os.Blocks.Allocation.{in_use, Allocates, balloc-Allocates}
use os.Inode.Defs.{ndirect, nindirect, Inode, word_at, put_word, indirect_addr}
use os.Inode.Words.{word_at-put_word, word_at-put_word_ne}
use os.Inode.Slots.{IsData, IsLaid, New, balloc-New, WellFormed}
use os.Inode.Own.{IsFull}

-- The entry j of the indirect block after it was asked for.
pub record Entered (j : ℕ) (ip : Inode) (s : Fs) (a : ℕ) (ip' : Inode) (s' : Fs) : Type 0 where
  pub ok : WellFormed ip' s'
  pub nonzero : a ≢ 0
  pub same_inode : ip' ≡ ip
  pub names : word_at (s'.blocks (ip.addrs ndirect)) j ≡ a
  pub others :
      (m : ℕ)
      → m ≢ j
      → word_at (s'.blocks (ip.addrs ndirect)) m ≡ word_at (s.blocks (ip.addrs ndirect)) m
  pub contents : (x : ℕ) → IsData s x → x ≢ ip.addrs ndirect → s'.blocks x ≡ s.blocks x
  pub kept : word_at (s.blocks (ip.addrs ndirect)) j ≢ 0 → s' ≡ s
  pub new :
      word_at (s.blocks (ip.addrs ndirect)) j ≡ 0
      → (a < s.size) × (in_use s a ≡ false) × (s'.blocks a ≡ (λ _ _. false))

abbrev pub Enters : ℕ → Inode → Fs → Option (ℕ × Inode × Fs) → Type 0
Enters j ip s none = (word_at (s.blocks (ip.addrs ndirect)) j ≡ 0) × IsFull s
Enters j ip s (some (a, ip', s')) = Entered j ip s a ip' s'

-- A block written that is not part of the bitmap.
write_block-IsData :
    (n x : ℕ) (v : Block) (s : Fs) → IsData s n → IsData s x → IsData (write_block n v s) x
write_block-IsData n x v s d d' = record {
  inside = d'.inside;
  used = rw (differ (d.not_map x d'.inside)) d'.used;
  not_map = d'.not_map;
}
  where
    differ : {a b : ℕ} → a ≢ b → (a == b) ≡ false
    differ {a} {b} ne = ground arith

write_block-IsLaid :
    (n : ℕ) (v : Block) (s : Fs) → IsData s n → IsLaid s → IsLaid (write_block n v s)
write_block-IsLaid n v s d l = record {
  small = l.small;
  zero_used = rw (differ (d.not_map 0 (omega (arith, d.inside)))) l.zero_used;
  map_inside = l.map_inside;
  map_used = λ x h. rw (differ (d.not_map (bblock x s) (l.map_inside x h))) (l.map_used x h);
}
  where
    differ : {a b : ℕ} → a ≢ b → (a == b) ≡ false
    differ {a} {b} ne = ground arith

entered :
    (j y : ℕ) (ip : Inode) (s s' : Fs)
    → j < nindirect
    → WellFormed ip s
    → ip.addrs ndirect ≢ 0
    → word_at (s.blocks (ip.addrs ndirect)) j ≡ 0
    → New y s s'
    → Entered j ip s y ip
        (write_block (ip.addrs ndirect) (put_word j y (s'.blocks (ip.addrs ndirect))) s')
entered j y ip s s' small ok set unset new = record {
  ok = record {
    laid = write_block-IsLaid ind words s' held new.laid;
    own = λ m h ne.
        write_block-IsData ind (ip.addrs m) words s' held (new.still (ip.addrs m) (ok.own m h ne));
    leaf = λ _ m h ne. leaf_at m h ne;
  };
  nonzero = new.nonzero;
  same_inode = refl;
  names = named;
  others = other_words;
  contents = λ x d ne. rw (differ ne) (new.same x d);
  kept = λ ne. absurd (ne unset);
  new = λ _. (
    subst (λ n. y < n) new.same_size new.data_block.inside,
    new.fresh,
    rw (differ apart) new.blank,
  );
}
  where
    ind : ℕ
    ind = ip.addrs ndirect

    words : Block
    words = put_word j y (s'.blocks ind)

    s3 : Fs
    s3 = write_block ind words s'

    differ : {a b : ℕ} → a ≢ b → (a == b) ≡ false
    differ {a} {b} ne = ground arith

    before : IsData s ind
    before = ok.own ndirect (omega arith) set

    held : IsData s' ind
    held = new.still ind before

    clash : true ≡ false → ⊥
    clash e = cc

    apart : y ≢ ind
    apart e = clash (sym before.used ∙ ap (in_use s) (sym e) ∙ new.fresh)

    here : s3.blocks ind ≡ words
    here = rw ((==_iff ind ind).1 refl) refl

    named : word_at (s3.blocks ind) j ≡ y
    named =
        ap (λ d. word_at d j) here
        ∙ word_at-put_word j y (s'.blocks ind)
            (omega (arith, new.data_block.inside, new.laid.small))

    other_words : (m : ℕ) → m ≢ j → word_at (s3.blocks ind) m ≡ word_at (s.blocks ind) m
    other_words m ne =
        ap (λ d. word_at d m) here
        ∙ word_at-put_word_ne j m y (s'.blocks ind) ne
        ∙ ap (λ d. word_at d m) (new.same ind before)

    leaf_at :
        (m : ℕ)
        → m < nindirect
        → word_at (s3.blocks ind) m ≢ 0
        → IsData s3 (word_at (s3.blocks ind) m)
    leaf_at m h ne = elim (Bool-cases (m == j)) [
      | inl z ↦
          subst (λ k. IsData s3 (word_at (s3.blocks ind) k)) (sym ((==_iff m j).0 z))
            (subst (IsData s3) (sym named) (write_block-IsData ind y words s' held new.data_block))
      | inr z ↦
          let same : word_at (s3.blocks ind) m ≡ word_at (s.blocks ind) m =
            other_words m (λ q. clash (sym ((==_iff m j).1 q) ∙ z)) in
          subst (IsData s3) (sym same) (
            write_block-IsData ind (word_at (s.blocks ind) m) words s' held
              (new.still (word_at (s.blocks ind) m) (ok.leaf set m h (λ q. ne (same ∙ q)))))
    ]

pub indirect_addr-Enters :
    (j : ℕ) (ip : Inode) (s : Fs)
    → j < nindirect
    → WellFormed ip s
    → ip.addrs ndirect ≢ 0
    → Enters j ip s (indirect_addr j (ip.addrs ndirect) ip s)
unfolding indirect_addr
indirect_addr-Enters j ip s small ok set = elim (Bool-cases (word_at (s.blocks ind) j == 0)) [
  | inr z ↦
      let e : indirect_addr j ind ip s ≡ some (word_at (s.blocks ind) j, ip, s) =
        rw (z, indirect_addr) refl in
      subst (Enters j ip s) (sym e) (record {
        ok = ok;
        nonzero = λ q. false≢true (sym z ∙ (==_iff (word_at (s.blocks ind) j) 0).1 q);
        same_inode = refl;
        names = refl;
        others = λ m _. refl;
        contents = λ x d ne. refl;
        kept = λ _. refl;
        new = λ q. absurd (false≢true (sym z ∙ (==_iff (word_at (s.blocks ind) j) 0).1 q));
      })
  | inl z ↦ elim (Option-cases (balloc s)) [
    | inl y ↦
        let e : indirect_addr j ind ip s ≡ none = rw (z, indirect_addr, y) refl in
        subst (Enters j ip s) (sym e)
          ((==_iff (word_at (s.blocks ind) j) 0).0 z, subst (Allocates s) y (balloc-Allocates s))
    | inr ((a, s'), y) ↦
        let e : indirect_addr j ind ip s
            ≡ some (a, ip, write_block ind (put_word j a (s'.blocks ind)) s') =
          rw (z, indirect_addr, y) refl in
        subst (Enters j ip s) (sym e) (
          entered j a ip s s' small ok set ((==_iff (word_at (s.blocks ind) j) 0).0 z)
            (balloc-New s s' a ok.laid y))
  ]
]
  where
    ind : ℕ
    ind = ip.addrs ndirect

    false≢true : false ≡ true → ⊥
    false≢true e = cc
