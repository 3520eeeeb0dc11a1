-- ===== src/Swap/PagingTests.antt =====
-- Victims, swapped pages and failures at concrete states.
use os.Base.{ℕ, ◌*◌, refl, true, false, some, [], ◌∷◌, ◌==◌, if◌then◌else◌}
use os.Swap.Defs.{Lru}
use os.Swap.State.{Pte, State}
use os.Swap.Paging.{kalloc}
use os.Swap.Failures.{Post, kalloc_never_returns}

-- Pages 3 and 5 are in the list, at the user pages 3 and 5 of the page directory 9; page 3 was
-- accessed.
abbrev two_pages : Lru
two_pages = record {
  next = λ x. if x == 3 then some 5 else some 3;
  prev = λ x. if x == 3 then some 5 else some 3;
  page_lru_head = some 3;
  num_lru_pages = 2;
  num_free_pages = 0;
}

abbrev entry : ℕ → Pte
entry n = record { number = n; present = true; writable = true; user = true; accessed = n == 3 }

abbrev swapped : Pte
swapped = record { number = 600; present = false; writable = false; user = false; accessed = false }

abbrev full : State
full = record {
  pages = λ x. record { pgdir = some 9; vaddr = x * 4096; swapped = false; swap_offset = 0 };
  lru = two_pages;
  ptes = λ _ n. if n == 8 then some swapped else some (entry n);
  bitmap = λ _ _. false;
  slots = λ _ i. i;
  frames = λ f _. f;
  freelist = [];
}

abbrev seven_free : State
seven_free = record full { freelist = 7 ∷ [] }

kalloc_none_example : Post (λ _ _. ⊥) (kalloc 4 10 full)
kalloc_none_example = kalloc_never_returns 4 10 full refl
