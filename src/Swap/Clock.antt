-- ===== src/Swap/Clock.antt =====
-- `select_victim` of pa5_sklt_xv6/kalloc.c, and when it finds a page.
use os.Base.{
  ℕ, zero, suc, ◌/◌, ◌≡◌, refl, sym, ◌∙◌, true, false, not, Option, none, some, ◌==◌, if◌then◌else◌,
  ==_iff, Bool-cases, inl, inr, ap, ◌⊎◌,
}
use os.Swap.State.{
  Pte, State, Result, returns, panics, null_pointer, unfinished, then_do, page_size, entry_of,
  set_entry, remove_page,
}

-- `*pte &= ~PTE_A` and the move of the head of the list.
abbrev pub give_chance : ℕ → ℕ → Pte → State → State
give_chance d page e s =
    record (set_entry d ((s.pages page).vaddr / page_size) (record e { accessed = false }) s) {
      lru = record s.lru { page_lru_head = s.lru.next page };
    }

-- The loop of `select_victim` with a number of rounds left.
unfoldable pub clock : ℕ → Option ℕ → State → Result ℕ
clock zero current s = unfinished
clock (suc n) none s = null_pointer
clock (suc n) (some page) s = elim (s.pages page).pgdir [
  | none ↦ null_pointer
  | some d ↦ elim (entry_of s d page) [
    | none ↦ panics
    | some e ↦
        let on = clock n (s.lru.next page) (give_chance d page e s) in
        let again = then_do (remove_page e.number s) (λ _ s'. clock n (some page) s') in
        if e.accessed then on else if not e.user then again else returns page s
  ]
]

unfoldable pub select_victim : ℕ → State → Result ℕ
select_victim rounds s = clock rounds s.lru.page_lru_head s

-- The page has a page directory, and an entry there of which P holds.
abbrev pub HasEntry : (Pte → Type 0) → State → ℕ → Type 0
HasEntry P s page =
    (d : ℕ) × (e : Pte) × ((s.pages page).pgdir ≡ some d) × (entry_of s d page ≡ some e) × P e

abbrev pub IsUser : Pte → Type 0
IsUser e = e.user ≡ true

abbrev pub IsAccessed : Pte → Type 0
IsAccessed e = e.accessed ≡ true

abbrev pub IsIdle : Pte → Type 0
IsIdle e = (e.user ≡ true) × (e.accessed ≡ false)

-- The entries after a second chance.
pub entry_of-give_chance :
    (d d' page x : ℕ) (e : Pte) (s : State)
    → entry_of (give_chance d page e s) d' x ≡ (
        if d' == d
        then (if (s.pages x).vaddr / page_size == (s.pages page).vaddr / page_size
            then some (record e { accessed = false })
            else entry_of s d x)
        else entry_of s d' x)
entry_of-give_chance d d' page x e s = elim (Bool-cases (d' == d)) [
  | inl z ↦ rw (z) refl
  | inr z ↦ rw (z) refl
]

idle : (e f : Pte) → some (record e { accessed = false }) ≡ some f → IsAccessed f → ⊥
idle e f h q = cc

module _ (d page : ℕ) (e : Pte) (s : State) where
  pub HasEntry-give_chance :
      (P : Pte → Type 0) (x : ℕ)
      → P (record e { accessed = false })
      → HasEntry P s x
      → HasEntry P (give_chance d page e s) x
  HasEntry-give_chance P x p (d', f, at, found, q) = elim (Bool-cases (d' == d)) [
    | inr z ↦ (d', f, at, entry_of-give_chance d d' page x e s ∙ rw (z) found, q)
    | inl z ↦
        let same : d' ≡ d = (==_iff d' d).0 z in
        elim (Bool-cases ((s.pages x).vaddr / page_size == (s.pages page).vaddr / page_size)) [
          | inl y ↦ (
            d',
            record e { accessed = false },
            at,
            entry_of-give_chance d d' page x e s ∙ rw (z) (rw (y) refl),
            p,
          )
          | inr y ↦ (
            d',
            f,
            at,
            entry_of-give_chance d d' page x e s ∙ rw (z) (rw (y) (rw (← same) found)),
            q,
          )
        ]
  ]

  -- A page that counts as accessed after a second chance did so before.
  pub before_chance :
      (x : ℕ) → HasEntry IsAccessed (give_chance d page e s) x → HasEntry IsAccessed s x
  before_chance x (d', f, at, found, q) = elim (Bool-cases (d' == d)) [
    | inr z ↦ (d', f, at, sym (entry_of-give_chance d d' page x e s ∙ rw (z) refl) ∙ found, q)
    | inl z ↦
        let same : d' ≡ d = (==_iff d' d).0 z in
        elim (Bool-cases ((s.pages x).vaddr / page_size == (s.pages page).vaddr / page_size)) [
          | inl y ↦ absurd (
              idle e f (sym (entry_of-give_chance d d' page x e s ∙ rw (z) (rw (y) refl)) ∙ found)
                q)
          | inr y ↦ (
            d',
            f,
            at,
            rw (same) (sym (entry_of-give_chance d d' page x e s ∙ rw (z) (rw (y) refl)) ∙ found),
            q,
          )
        ]
  ]

  -- A page that is idle after a second chance was so before, or it has the entry that was changed.
  pub second_chance_back :
      (s.pages page).pgdir ≡ some d
      → (x : ℕ) → HasEntry IsIdle (give_chance d page e s) x
      → HasEntry IsIdle s x
        ⊎ (((s.pages page).pgdir ≡ (s.pages x).pgdir)
            × ((s.pages page).vaddr / page_size ≡ (s.pages x).vaddr / page_size))
  second_chance_back at_page x (d', f, at, found, q) = elim (Bool-cases (d' == d)) [
    | inr z ↦ inl (d', f, at, sym (entry_of-give_chance d d' page x e s ∙ rw (z) refl) ∙ found, q)
    | inl z ↦
        let same : d' ≡ d = (==_iff d' d).0 z in
        elim (Bool-cases ((s.pages x).vaddr / page_size == (s.pages page).vaddr / page_size)) [
          | inl y ↦ inr (at_page ∙ ap some (sym same) ∙ sym at, sym ((==_iff _ _).0 y))
          | inr y ↦ inl (
            d',
            f,
            at,
            rw (same) (sym (entry_of-give_chance d d' page x e s ∙ rw (z) (rw (y) refl)) ∙ found),
            q,
          )
        ]
  ]
