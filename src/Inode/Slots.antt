-- ===== src/Inode/Slots.antt =====
-- The blocks that an inode names, xv6-public/fs.c.
use os.Base.{
  ℕ, ap₂, ◌+◌, ◌-◌, ◌/◌, ◌≤◌, ◌<◌, ◌≡◌, ◌≢◌, refl, sym, ap, ◌∙◌, subst, true, false, some, ◌==◌,
  ltb, if◌then◌else◌, ==_iff, arith,
}
use os.Blocks.Defs.{Fs, bblock, balloc}
use os.Blocks.Allocation.{in_use, Allocates, balloc-Allocates}
use os.Blocks.Frame.{Keeps, KeepsAll, balloc-KeepsAll}
use os.Inode.Defs.{ndirect, nindirect, Inode, word_at}

-- A block of data: on the disk, in use, and not part of the bitmap.
pub record IsData (s : Fs) (a : ℕ) : Type 0 where
  pub inside : a < s.size
  pub used : in_use s a ≡ true
  pub not_map : (x : ℕ) → x < s.size → bblock x s ≢ a

-- Block 0 and the bitmap are in use, the bitmap is on the disk, and block numbers are words.
pub record IsLaid (s : Fs) : Type 0 where
  pub small : s.size ≤ 4294967296
  pub zero_used : in_use s 0 ≡ true
  pub map_inside : (x : ℕ) → x < s.size → bblock x s < s.size
  pub map_used : (x : ℕ) → x < s.size → in_use s (bblock x s) ≡ true

-- What a new block is.
pub record New (y : ℕ) (s s' : Fs) : Type 0 where
  pub laid : IsLaid s'
  pub data_block : IsData s' y
  pub nonzero : y ≢ 0
  pub fresh : in_use s y ≡ false
  pub blank : s'.blocks y ≡ (λ _ _. false)
  pub same : (x : ℕ) → IsData s x → s'.blocks x ≡ s.blocks x
  pub still : (x : ℕ) → IsData s x → IsData s' x
  pub same_size : s'.size ≡ s.size
  pub still_used : (x : ℕ) → x < s.size → in_use s x ≡ true → in_use s' x ≡ true
  pub used_before : (x : ℕ) → x < s.size → x ≢ y → in_use s' x ≡ true → in_use s x ≡ true

used_free : (s : Fs) (x y : ℕ) → in_use s x ≡ true → in_use s y ≡ false → x ≢ y
used_free s x y u f e = clash (sym u ∙ ap (in_use s) e ∙ f)
  where
    clash : true ≡ false → ⊥
    clash e = cc

pub balloc-New : (s s' : Fs) (y : ℕ) → IsLaid s → balloc s ≡ some (y, s') → New y s s'
balloc-New s s' y laid e =
    let (inside, free, _, blank, used, _) = subst (Allocates s) e (balloc-Allocates s) in
    let k : Keeps y s s' = subst (KeepsAll s) e (balloc-KeepsAll s) in
    let off_map : (x : ℕ) → x < s.size → bblock x s ≢ y =
      λ x h. used_free s (bblock x s) y (laid.map_used x h) free in
    let map_at : (x : ℕ) → bblock x s' ≡ bblock x s = λ x. ap (λ n. x / 4096 + n) k.same_start in
    record {
      laid = record {
        small = subst (λ n. n ≤ 4294967296) (sym k.same_size) laid.small;
        zero_used = k.still_used 0 (off_map 0 (omega arith)) laid.zero_used;
        map_inside = λ x h.
            subst (λ n. n) (sym (ap₂ (λ b n. b < n) (map_at x) k.same_size))
              (laid.map_inside x (subst (λ n. x < n) k.same_size h));
        map_used = λ x h.
            let low : x < s.size = subst (λ n. x < n) k.same_size h in
            subst (λ b. in_use s' b ≡ true) (sym (map_at x))
              (k.still_used (bblock x s) (off_map (bblock x s) (laid.map_inside x low))
                (laid.map_used x low));
      };
      data_block = record {
        inside = subst (λ n. y < n) (sym k.same_size) inside;
        used = used (off_map y inside);
        not_map = λ x h q. off_map x (subst (λ n. x < n) k.same_size h) (sym (map_at x) ∙ q);
      };
      nonzero = λ q. used_free s 0 y laid.zero_used free (sym q);
      fresh = free;
      blank = blank;
      same = λ x d. k.same_blocks x (used_free s x y d.used free) (λ q. d.not_map y inside (sym q));
      still = λ x d. record {
        inside = subst (λ n. x < n) (sym k.same_size) d.inside;
        used = k.still_used x (off_map x d.inside) d.used;
        not_map = λ z h q. d.not_map z (subst (λ n. z < n) k.same_size h) (sym (map_at z) ∙ q);
      };
      same_size = k.same_size;
      still_used = λ x h u. k.still_used x (off_map x h) u;
      used_before = λ x h ne u. k.used_before x ne (off_map x h) u;
    }

-- The number of the nth block of an inode, or 0.
abbrev pub slot : Inode → Fs → ℕ → ℕ
slot ip s n =
    if ltb n ndirect
    then ip.addrs n
    else if ip.addrs ndirect == 0
    then 0
    else word_at (s.blocks (ip.addrs ndirect)) (n - ndirect)

pub slot_direct : (ip : Inode) (s : Fs) (n : ℕ) → n < ndirect → slot ip s n ≡ ip.addrs n
slot_direct ip s n h = rw (low n h) refl
  where
    low : (n : ℕ) → n < ndirect → ltb n ndirect ≡ true
    low n h = ground arith

pub slot_unset :
    (ip : Inode) (s : Fs) (n : ℕ) → ndirect ≤ n → ip.addrs ndirect ≡ 0 → slot ip s n ≡ 0
slot_unset ip s n h e = rw (high n h, (==_iff (ip.addrs ndirect) 0).1 e) refl
  where
    high : (n : ℕ) → ndirect ≤ n → ltb n ndirect ≡ false
    high n h = ground arith

pub slot_indirect :
    (ip : Inode) (s : Fs) (n : ℕ)
    → ndirect ≤ n
    → ip.addrs ndirect ≢ 0
    → slot ip s n ≡ word_at (s.blocks (ip.addrs ndirect)) (n - ndirect)
slot_indirect ip s n h ne = rw (high n h, set (ip.addrs ndirect) ne) refl
  where
    high : (n : ℕ) → ndirect ≤ n → ltb n ndirect ≡ false
    high n h = ground arith

    set : (a : ℕ) → a ≢ 0 → (a == 0) ≡ false
    set a ne = ground arith

-- Every block that the inode names, the indirect one included, is a block of data.
pub record WellFormed (ip : Inode) (s : Fs) : Type 0 where
  pub laid : IsLaid s
  pub own : (i : ℕ) → i ≤ ndirect → ip.addrs i ≢ 0 → IsData s (ip.addrs i)
  pub leaf :
      ip.addrs ndirect ≢ 0
      → (j : ℕ) → j < nindirect
      → word_at (s.blocks (ip.addrs ndirect)) j ≢ 0
      → IsData s (word_at (s.blocks (ip.addrs ndirect)) j)
