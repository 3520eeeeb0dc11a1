-- ===== src/Locks/Nesting.antt =====
-- Nested calls of `pushcli` and `popcli`, xv6-public/spinlock.c.
use os.Base.{
  ℕ, zero, suc, ◌+◌, ◌-◌, ◌≡◌, refl, sym, ap, ◌∙◌, Bool, false, ◌&&◌, Option, none, some, ◌==◌,
  if◌then◌else◌, arith, Bool-cases, inl, inr,
}
use os.Locks.Defs.{Cpu, pushcli, popcli}

unfoldable pub pushes : ℕ → Cpu → Cpu
pushes zero c = c
pushes (suc n) c = pushcli (pushes n c)

unfoldable pub pops : ℕ → Cpu → Option Cpu
pops zero c = some c
pops (suc n) c = elim (popcli c) [ none ↦ none | some c' ↦ pops n c' ]

-- A processor with interrupts off in nested calls.
abbrev within : ℕ → Bool → Cpu
within n i = record { interrupts = false; ncli = n; intena = i }

pushes_lem :
    (n : ℕ) (c : Cpu)
    → pushes (suc n) c ≡ within (c.ncli + suc n) (if c.ncli == 0 then c.interrupts else c.intena)
unfolding pushes pushcli
pushes_lem zero c = refl
pushes_lem (suc n) c =
    let i = if c.ncli == 0 then c.interrupts else c.intena in
    let deeper : c.ncli + suc n == 0 ≡ false = ground arith in
    let sum : c.ncli + suc n + 1 ≡ c.ncli + suc (suc n) = omega arith in
    ap pushcli (pushes_lem n c) ∙ rw (deeper, sum) refl

popcli_lem :
    (n : ℕ) (i : Bool)
    → popcli (within (suc n) i) ≡ some (record { interrupts = n == 0 && i; ncli = n; intena = i })
unfolding popcli
popcli_lem n i =
    let deeper : suc n == 0 ≡ false = ground arith in
    let back : suc n - 1 ≡ n = omega arith in rw (deeper, back) refl

pops_lem :
    (n base : ℕ) (i : Bool)
    → pops (suc n) (within (suc (base + n)) i)
      ≡ some (record { interrupts = base == 0 && i; ncli = base; intena = i })
unfolding pops
pops_lem zero base i =
    let sum : base + 0 ≡ base = omega arith in rw (sum) (rw (popcli_lem base i, pops) refl)
pops_lem (suc n) base i =
    let inner : base + suc n == 0 ≡ false = ground arith in
    let sum : base + suc n ≡ suc (base + n) = omega arith in
    rw (popcli_lem (base + suc n) i, pops) (rw (inner) (rw (sum) (pops_lem n base i)))

-- As many calls of `popcli` as of `pushcli` before them do not panic, and bring back the depth and
-- the interrupt flag, if interrupts are off within nested calls to begin with.
pub pops-pushes :
    (n : ℕ) (c : Cpu)
    → (c.ncli == 0 ≡ false → c.interrupts ≡ false)
    → (c' : Cpu) × (pops (suc n) (pushes (suc n) c) ≡ some c')
      × (c'.interrupts ≡ c.interrupts)
      × (c'.ncli ≡ c.ncli)
pops-pushes n c off =
    let i = if c.ncli == 0 then c.interrupts else c.intena in
    (
      record { interrupts = c.ncli == 0 && i; ncli = c.ncli; intena = i },
      ap (pops (suc n)) (pushes_lem n c)
          ∙ ap (λ k. pops (suc n) (within k i)) (sum c.ncli n)
          ∙ pops_lem n c.ncli i,
      restored c.ncli c.interrupts c.intena off,
      refl,
    )
  where
    sum : (a b : ℕ) → a + suc b ≡ suc (a + b)
    sum a b = omega arith

    restored :
        (n : ℕ) (f i : Bool)
        → (n == 0 ≡ false → f ≡ false)
        → (n == 0 && (if n == 0 then f else i)) ≡ f
    restored n f i off = elim (Bool-cases (n == 0)) [
      | inl z ↦ rw (z) refl
      | inr z ↦ rw (z) (sym (off z))
    ]
