-- ===== src/Swap/Rounds.antt =====
-- The rounds of `select_victim` of pa5_sklt_xv6/kalloc.c over a whole list.
use os.Base.{ℕ, suc, ◌/◌, ◌≡◌, some, List, [], ◌∷◌, ◌++◌, All, ◌⊎◌}
use os.Swap.State.{State, Result, returns, page_size}
use os.Swap.Clock.{HasEntry, IsAccessed, IsIdle}

-- Two pages are mapped by the same page table entry.
abbrev pub SameEntry : State → ℕ → ℕ → Type 0
SameEntry s x y =
    ((s.pages x).pgdir ≡ (s.pages y).pgdir)
    × ((s.pages x).vaddr / page_size ≡ (s.pages y).vaddr / page_size)

-- Some page of the list is mapped by the entry of page v.
abbrev pub Shared : State → List ℕ → ℕ → Type 0
Shared s [] v = ⊥
Shared s (x ∷ xs) v = SameEntry s x v ⊎ Shared s xs v

-- What the clock finds among pages in the order of the list, if it has given the entries of the
-- pages of P a second chance before: the page `again` at which its first round was when all were
-- accessed, or else the first one that was not accessed or has lost its mark in this run.
abbrev Outcome : (ℕ → Type 0) → ℕ → List ℕ → State → Result ℕ → Type 0
Outcome P again pages s₀ r =
    (v : ℕ) × (s' : State) × (r ≡ returns v s')
    × (s'.lru.page_lru_head ≡ some v)
    × HasEntry IsIdle s' v
    × (((v ≡ again) × All (HasEntry IsAccessed s₀) pages)
        ⊎ ((before after : List ℕ) × (pages ≡ before ++ (v ∷ after))
            × All (HasEntry IsAccessed s₀) before
            × (HasEntry IsIdle s₀ v ⊎ (P v ⊎ Shared s₀ before v))))

-- Those of P and the pages with the entry of one more page.
abbrev Chanced : State → ℕ → (ℕ → Type 0) → ℕ → Type 0
Chanced s page P v = P v ⊎ SameEntry s page v

-- A page that is idle was so before, or its entry was given a second chance.
abbrev WasIdle : State → State → (ℕ → Type 0) → Type 0
WasIdle s₀ s P = (x : ℕ) → HasEntry IsIdle s x → HasEntry IsIdle s₀ x ⊎ P x

-- So many rounds more.
abbrev rounds_for : List ℕ → ℕ → ℕ
rounds_for [] n = n
rounds_for (x ∷ xs) n = suc (rounds_for xs n)

-- Whether the victim is the first page of the list that was not accessed, up to pages that share
-- the entry of an earlier one, or all were accessed and it is the head of the list.
abbrev pub IsVictim : List ℕ → State → ℕ → ℕ → Type 0
IsVictim pages s h v =
    ((v ≡ h) × All (HasEntry IsAccessed s) pages)
    ⊎ ((before after : List ℕ) × (pages ≡ before ++ (v ∷ after))
        × All (HasEntry IsAccessed s) before
        × (HasEntry IsIdle s v ⊎ Shared s before v))
