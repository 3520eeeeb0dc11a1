-- ===== src/Mmap/Unmaps.antt =====
-- What `munmap` leaves, pa3/xv6-public/proc.c.
use os.Base.{ℕ, ◌+◌, ◌%◌, ◌≤◌, ◌≡◌, some, length}
use os.Mmap.Memory.{frame_of, u32, Pte, Area, State, lookup_pte}
use os.Mmap.Defs.{rounds}
use os.Mmap.Pages.{Counted, IsFrame}

-- What freeing n pages keeps: the count of free pages is true and at most n more, the areas and the
-- end of the kernel are the same, and all entries that are there were there before.
record Frees (n me : ℕ) (s s' : State) : Type 0 where
  counted : Counted s'
  grown : length s'.freelist ≤ length s.freelist + n
  same_areas : s'.areas ≡ s.areas
  same_end : s'.kernel_end ≡ s.kernel_end
  back : (x : ℕ) (e : Pte) → lookup_pte s' me x ≡ some e → lookup_pte s me x ≡ some e

-- The frame of the entry of a page, if it has one, is one of those that the kernel hands out.
abbrev OwnsFrame : State → ℕ → ℕ → Type 0
OwnsFrame s me va = (e : Pte) → lookup_pte s me va ≡ some e → IsFrame s (frame_of e)

-- The pages of an area, from its start to its end.
abbrev pub pages_of : Area → ℕ
pages_of a = rounds a.addr ((a.addr + a.length) % u32)
