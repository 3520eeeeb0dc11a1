-- ===== src/Swap/Returns.antt =====
-- What `swapin` of pa5_sklt_xv6/kalloc.c leaves.
use os.Base.{ℕ, ◌≤◌, ◌<◌, ◌≡◌, some, List, ◌∷◌}
use os.Swap.Defs.{swap_base}
use os.Swap.State.{Pte, State}
use os.Swap.Paging.{slot_count}

-- A swapped page: `swapin` finds a free frame m, and the entry names a slot of the swap space whose
-- bit is in the bitmap.
pub record IsSwapped (d n m : ℕ) (rest : List ℕ) (e : Pte) (s : State) : Type 0 where
  pub free : s.freelist ≡ m ∷ rest
  pub entry : s.ptes d n ≡ some e
  pub low : swap_base ≤ e.number
  pub high : e.number < slot_count
