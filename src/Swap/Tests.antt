-- ===== src/Swap/Tests.antt =====
-- Swap blocks and a list of pages at concrete inputs.
use os.Base.{zero, suc, ◌≡◌, refl, true, none, some, [], ◌∷◌, arith, ◌==◌, ltb, ◌&&◌}
use os.Swap.Defs.{Bitmap, Lru, lru_add, lru_remove, link}
use os.Swap.Ring.{IsRing, lru_add-IsRing, lru_remove-lru_remove}

-- Ten blocks are taken.
abbrev ten_taken : Bitmap
ten_taken j k = elim j [ zero ↦ true | suc i ↦ i == 0 && ltb k 2 ]

abbrev one_page : Lru
one_page = record {
  next = λ _. some 3;
  prev = λ _. some 3;
  page_lru_head = some 3;
  num_lru_pages = 1;
  num_free_pages = 8;
}

lru_add_example : (l' : Lru) × (lru_add 5 one_page ≡ some l') × IsRing l' (3 ∷ 5 ∷ [])
lru_add_example =
    lru_add-IsRing one_page (3 ∷ []) 5 (refl, (refl, refl), (tt, tt), refl) (λ e. omega arith, tt)
      (omega arith)

abbrev removed : Lru
removed = record {
  next = link one_page.next 3 none;
  prev = link one_page.prev 3 none;
  page_lru_head = none;
  num_lru_pages = 0;
  num_free_pages = 9;
}

lru_remove_example : lru_remove 3 removed ≡ none
unfolding lru_remove
lru_remove_example = lru_remove-lru_remove 3 one_page removed refl
