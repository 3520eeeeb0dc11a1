-- ===== src/Grep/Matches.antt =====
-- What a star and a search stand for, xv6-public/grep.c.
use os.Base.{
  ℕ, zero, suc, ◌≤◌, ◌≡◌, ◌↔◌, inl, inr, refl, sym, ◌∙◌, Bool, true, false, ◌||◌, List, [], ◌∷◌,
  length, take, drop, All, arith, ◌==◌, Bool-cases,
}
use os.Grep.Defs.{dot, caret, matchstar, matchhere, match_from, match}

abbrev pub Fits : ℕ → ℕ → Type 0
Fits c x = (x == c || c == dot) ≡ true

-- `matchstar` finds a match just if the text is some number of bytes that fit the starred one and
-- then a text that matches the rest.
pub matchstar_iff :
    (c : ℕ) (rest : List ℕ → Bool) (text : List ℕ)
    → (matchstar c rest text ≡ true)
      ↔ ((n : ℕ) × (n ≤ length text) × All (Fits c) (take n text) × (rest (drop n text) ≡ true))
unfolding matchstar
matchstar_iff c rest [] = (λ e. (0, omega arith, tt, e), λ (n, low, fits, e). empty n e)
  where
    empty : (n : ℕ) → rest (drop n []) ≡ true → rest [] ≡ true
    empty zero e = e
    empty (suc n) e = e
matchstar_iff c rest (x ∷ t) = elim (Bool-cases (rest (x ∷ t))) [
  | inl z ↦ rw (z, matchstar) (λ e. (0, omega arith, tt, z), λ p. refl)
  | inr z ↦ elim (Bool-cases (x == c || c == dot)) [
    | inr y ↦
        rw (z, matchstar) (rw (y) (λ e. absurd (no e), λ (n, low, fits, e). none_fits n z y fits e))
    | inl y ↦
        rw (z, matchstar)
          (rw (y) (
            λ e. one_more y ((matchstar_iff c rest t).0 e),
            λ (n, low, fits, e). (matchstar_iff c rest t).1 (one_less n z low fits e),
          ))
  ]
]
  where
    no : false ≡ true → ⊥
    no e = cc

    none_fits :
        (n : ℕ)
        → rest (x ∷ t) ≡ false
        → (x == c || c == dot) ≡ false
        → All (Fits c) (take n (x ∷ t))
        → rest (drop n (x ∷ t)) ≡ true
        → false ≡ true
    none_fits zero z y fits e = sym z ∙ e
    none_fits (suc n) z y (fit, _) e = sym y ∙ fit

    one_more :
        (x == c || c == dot) ≡ true
        → ((n : ℕ) × (n ≤ length t) × All (Fits c) (take n t) × (rest (drop n t) ≡ true))
        → (n : ℕ) × (n ≤ length (x ∷ t))
          × All (Fits c) (take n (x ∷ t))
          × (rest (drop n (x ∷ t)) ≡ true)
    one_more y (n, low, fits, e) = (suc n, omega arith, (y, fits), e)

    one_less :
        (n : ℕ)
        → rest (x ∷ t) ≡ false
        → n ≤ length (x ∷ t)
        → All (Fits c) (take n (x ∷ t))
        → rest (drop n (x ∷ t)) ≡ true
        → (n : ℕ) × (n ≤ length t) × All (Fits c) (take n t) × (rest (drop n t) ≡ true)
    one_less zero z low fits e = absurd (no (sym z ∙ e))
    one_less (suc n) z low (_, fits) e = (n, omega arith, fits, e)

match_from_iff :
    (here : List ℕ → Bool) (text : List ℕ)
    → (match_from here text ≡ true) ↔ ((n : ℕ) × (n ≤ length text) × (here (drop n text) ≡ true))
unfolding match_from
match_from_iff here [] = (λ e. (0, omega arith, e), λ (n, low, e). empty n e)
  where
    empty : (n : ℕ) → here (drop n []) ≡ true → here [] ≡ true
    empty zero e = e
    empty (suc n) e = e
match_from_iff here (x ∷ t) = elim (Bool-cases (here (x ∷ t))) [
  | inl z ↦ rw (z, match_from) (λ e. (0, omega arith, z), λ p. refl)
  | inr z ↦
      rw (z, match_from)
        (
          λ e. one_more ((match_from_iff here t).0 e),
          λ (n, low, e). (match_from_iff here t).1 (one_less n z low e),
        )
]
  where
    no : false ≡ true → ⊥
    no e = cc

    one_more :
        ((n : ℕ) × (n ≤ length t) × (here (drop n t) ≡ true))
        → (n : ℕ) × (n ≤ length (x ∷ t)) × (here (drop n (x ∷ t)) ≡ true)
    one_more (n, low, e) = (suc n, omega arith, e)

    one_less :
        (n : ℕ)
        → here (x ∷ t) ≡ false
        → n ≤ length (x ∷ t)
        → here (drop n (x ∷ t)) ≡ true
        → (n : ℕ) × (n ≤ length t) × (here (drop n t) ≡ true)
    one_less zero z low e = absurd (no (sym z ∙ e))
    one_less (suc n) z low e = (n, omega arith, e)

-- An expression that does not start with '^' matches a text just if `matchhere` matches some rest of
-- it, the empty one included.
pub match_iff :
    (c : ℕ) (re text : List ℕ)
    → c == caret ≡ false
    → (match (c ∷ re) text ≡ true)
      ↔ ((n : ℕ) × (n ≤ length text) × (matchhere (c ∷ re) (drop n text) ≡ true))
unfolding match
match_iff c re text plain = rw (plain, match) (match_from_iff (matchhere (c ∷ re)) text)
