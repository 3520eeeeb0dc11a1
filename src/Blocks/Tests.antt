-- ===== src/Blocks/Tests.antt =====
-- A disk of which the first 30 blocks are in use.
use os.Base.{◌+◌, ◌*◌, ◌≡◌, refl, true, false, none, some, [], ◌==◌, ltb, if◌then◌else◌}
use os.Blocks.Defs.{Fs, Block, balloc, bfree, write_block, write_bit}
use os.Blocks.Allocation.{Allocates, balloc-Allocates}

abbrev thirty : Block
thirty j k = ltb (j * 8 + k) 30

abbrev small_disk : Fs
small_disk = record {
  size = 100;
  bmapstart = 20;
  blocks = λ n. if n == 20 then thirty else (λ _ _. true);
  logged = [];
}

balloc_example : Allocates small_disk (balloc small_disk)
balloc_example = balloc-Allocates small_disk

bfree_example : bfree 29 small_disk ≡ some (write_block 20 (write_bit thirty 29 false) small_disk)
unfolding bfree
bfree_example = refl

free_twice : bfree 31 small_disk ≡ none
unfolding bfree
free_twice = refl
