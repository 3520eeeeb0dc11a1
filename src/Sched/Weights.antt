-- ===== src/Sched/Weights.antt =====
-- The table of weights, read within its bounds.
use os.Base.{
  ℕ, zero, suc, ◌+◌, ◌≤◌, ◌<◌, ◌≡◌, refl, Bool, true, ◌&&◌, arith, leb, leb→le, Bool-cases,
  if◌then◌else◌, false, inl, inr, sym, ◌∙◌, subst,
}
use os.Sched.Defs.{weight}
use native.Mathlib.Nat.{add-zero}

-- A test of the `count` numbers from `first` on.
passes : (ℕ → Bool) → ℕ → ℕ → Bool
passes test first zero = true
passes test first (suc count) = if test first then passes test (first + 1) count else false

no : false ≡ true → ⊥
no e = cc

passes_at :
    (test : ℕ → Bool) (count first k : ℕ)
    → passes test first count ≡ true
    → k < count
    → test (first + k) ≡ true
unfolding passes
passes_at test zero first k ok h = absurd (omega arith)
passes_at test (suc count) first zero ok h = elim (Bool-cases (test first)) [
  | inr z ↦ absurd (no (sym (rw (z) refl) ∙ ok))
  | inl z ↦ subst (λ n. test n ≡ true) (omega arith) z
]
passes_at test (suc count) first (suc k) ok h =
    let on : first + 1 + k ≡ first + suc k = omega arith in
    elim (Bool-cases (test first)) [
      | inr z ↦ absurd (no (sym (rw (z) refl) ∙ ok))
      | inl z ↦
          subst (λ n. test n ≡ true) on
            (passes_at test count (first + 1) k (sym (rw (z) refl) ∙ ok) (omega arith))
    ]

bounds_table : passes (λ n. leb 15 (weight n) && leb (weight n) 88761) 0 40 ≡ true
unfolding passes weight
bounds_table = refl

antitone_table : passes (λ n. leb (weight (n + 1)) (weight n)) 0 39 ≡ true
unfolding passes weight
antitone_table = refl

-- A `nice` value of the table has a positive weight, so no division by a weight is by zero.
pub weight_bounds : (n : ℕ) → n ≤ 39 → (15 ≤ weight n) × (weight n ≤ 88761)
weight_bounds n h = ground (arith, passes_at _ 40 0 n bounds_table)

weight_step : (n : ℕ) → n < 39 → weight (n + 1) ≤ weight n
weight_step n h = leb→le (weight (n + 1)) (weight n) (
    subst (λ k. leb (weight (k + 1)) (weight k) ≡ true) (omega arith)
      (passes_at (λ n. leb (weight (n + 1)) (weight n)) 39 0 n antitone_table h))

pub weight_antitone : (k n : ℕ) → n + k ≤ 39 → weight (n + k) ≤ weight n
weight_antitone zero n h = rw add-zero (omega arith)
weight_antitone (suc k) n h = rw (shift) (omega (arith, weight_antitone k n, weight_step (n + k)))
  where
    shift : n + suc k ≡ n + k + 1
    shift = omega arith
