-- ===== src/Cache/Tests.antt =====
-- Runs of the buffer cache, and its theorems at them.
use os.Base.{ℕ, ◌≡◌, refl, inl, inr, Option, none, some, [], ◌∷◌}
use os.Cache.Defs.{
  Block, State, Got, got, waits, panics, initsleeplock, acquiresleep, releasesleep, holdingsleep,
  link_all, binit, find_first, find_last, lock_buf, bget, iderw, read_buf, bread, bwrite, brelse,
  set_buf,
}
use os.Cache.Coherence.{IsFull, IsValid}
use os.Cache.Reads.{Reads, bread_lem}
use os.Cache.Writes.{Writes, bwrite_lem}
use os.Cache.Releases.{Releases, brelse_lem}
use os.Cache.Steps.{Reached, starts, goes_on, reads, edits, Reached-IsValid}

-- A disk of 8 blocks whose block n has n in each byte, and a cache of 2 buffers.
abbrev test_disk : ℕ → Block
test_disk n i = n

abbrev fresh : State
fresh = binit 2 test_disk

abbrev after : Got → State
after (got b s) = s
after (waits b s) = s
after panics = fresh

abbrev after_write : Option State → State
after_write none = fresh
after_write (some s) = s

abbrev read_5 : State
read_5 = after (bread 8 1 1 5 fresh)

order_test : fresh.order ≡ 1 ∷ 0 ∷ []
unfolding binit link_all
order_test = refl

read_test : (read_5.bufs 0).contents 3 ≡ 5
unfolding initsleeplock acquiresleep releasesleep holdingsleep link_all binit find_first find_last
    lock_buf bget iderw read_buf bread
read_test = refl

read_5-Reached : Reached 8 2 test_disk read_5
unfolding initsleeplock acquiresleep releasesleep holdingsleep link_all binit find_first find_last
    lock_buf bget iderw read_buf bread
read_5-Reached = goes_on starts (reads 1 1 5 0 refl)

-- Process 1 has changed the bytes of block 5.
abbrev edited : State
edited = set_buf 0 (record (read_5.bufs 0) { contents = λ i. i }) read_5

edited-Reached : Reached 8 2 test_disk edited
unfolding initsleeplock acquiresleep releasesleep holdingsleep link_all binit find_first find_last
    lock_buf bget iderw read_buf bread
edited-Reached = goes_on read_5-Reached (edits 1 0 (λ i. i) (inr (inl refl)) refl)

write_test : (after_write (bwrite 8 1 0 edited)).disk 5 7 ≡ 7
unfolding initsleeplock acquiresleep releasesleep holdingsleep link_all binit find_first find_last
    lock_buf bget iderw read_buf bread bwrite
write_test = refl

bread_example : Reads read_5.order read_5.disk 8 2 1 6 (IsFull read_5 1 6) (bread 8 2 1 6 read_5)
bread_example = bread_lem 8 2 1 6 read_5 (Reached-IsValid 8 2 test_disk read_5-Reached)

bwrite_example : Writes 8 1 0 edited (bwrite 8 1 0 edited)
unfolding initsleeplock acquiresleep releasesleep holdingsleep link_all binit find_first find_last
    lock_buf bget iderw read_buf bread
bwrite_example =
    bwrite_lem 8 1 0 edited (Reached-IsValid 8 2 test_disk edited-Reached) (inr (inl refl)) refl

brelse_example : Releases 1 0 read_5 (brelse 1 0 read_5)
unfolding initsleeplock acquiresleep releasesleep holdingsleep link_all binit find_first find_last
    lock_buf bget iderw read_buf bread
brelse_example =
    brelse_lem 1 0 read_5 (Reached-IsValid 8 2 test_disk read_5-Reached) (inr (inl refl))
      (λ _ _. refl)

Reached_example : IsValid edited
Reached_example = Reached-IsValid 8 2 test_disk edited-Reached
