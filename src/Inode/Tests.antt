-- ===== src/Inode/Tests.antt =====
-- Runs of `bmap`, and its theorem at them.
use os.Base.{
  pos, minus_one, ◌||◌, leb, ◌/◌, ℕ, ◌+◌, ◌*◌, ◌≡◌, ◌≢◌, ◌<◌, refl, subst, true, false, none, some,
  [], ◌==◌, ltb, if◌then◌else◌, Bool-cases, inl, inr, arith,
}
use os.Blocks.Defs.{Block, Fs, bblock}
use os.Blocks.Allocation.{in_use}
use os.Inode.Defs.{Inode, value, bit, word_at, put_word, bmap}
use os.Inode.Slots.{IsData, WellFormed, slot}
use os.Inode.Bmap.{Maps, bmap-Maps}
use os.Inode.Access.{readi}
use os.Inode.Readi.{IsWhole, available, file_bytes, readi_lem}

abbrev thirty : Block
thirty j k = ltb (j * 8 + k) 30

-- A disk of which the first 30 blocks are in use.
abbrev disk : Fs
disk = record {
  size = 100;
  bmapstart = 20;
  blocks = λ n. if n == 20 then thirty else (λ _ _. false);
  logged = [];
}

-- An inode with one block.
abbrev inode : Inode
inode = record { size = 512; addrs = λ i. if i == 0 then 25 else 0 }

bit_test : word_at (put_word 3 4660 (λ _ _. true)) 3 ≡ 4660
unfolding word_at value put_word bit
bit_test = refl

inode-WellFormed : WellFormed inode disk
inode-WellFormed = record {
  laid = record {
    small = omega arith;
    zero_used = refl;
    map_inside = λ x h. omega arith;
    map_used = λ x h. subst (λ b. in_use disk b ≡ true) (at_20 x h) refl;
  };
  own = λ i h ne. elim (Bool-cases (i == 0)) [
    | inl z ↦ rw (z) block_25
    | inr z ↦ absurd (ne (rw (z) refl))
  ];
  leaf = λ ne. absurd (ne refl);
}
  where
    at_20 : (x : ℕ) → x < 100 → 20 ≡ bblock x disk
    at_20 x h = omega arith

    block_25 : IsData disk 25
    block_25 = record {
      inside = omega arith;
      used = refl;
      not_map = λ x h e. omega (arith, at_20 x h);
    }

bmap_example : Maps 13 inode disk (bmap 13 inode disk)
bmap_example = bmap-Maps 13 inode disk inode-WellFormed

too_far_test : bmap 140 inode disk ≡ none
unfolding bmap
too_far_test = refl

inode-IsWhole : IsWhole inode disk
inode-IsWhole = record {
  ok = inode-WellFormed;
  bounded = omega arith;
  filled = λ p h. subst (λ n. slot inode disk n ≢ 0) (first p h) (λ e. omega arith);
}
  where
    first : (p : ℕ) → p < 512 → 0 ≡ p / 512
    first p h = omega arith

readi_example : readi 500 20 inode disk ≡ (
    if ltb 512 500 || leb 4294967296 520
    then some (minus_one, [], inode, disk)
    else some (
      pos (available 500 20 inode),
      file_bytes (available 500 20 inode) 500 inode disk,
      inode,
      disk,
    ))
readi_example = readi_lem 500 20 inode disk inode-IsWhole (omega arith) (omega arith)

short_test : available 500 20 inode ≡ 12
short_test = refl

refused_test : readi 513 1 inode disk ≡ some (minus_one, [], inode, disk)
unfolding readi
refused_test = refl
