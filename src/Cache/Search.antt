-- ===== src/Cache/Search.antt =====
-- What the two searches of `bget` find.
use os.Base.{
  ℕ, ◌≡◌, ◌≢◌, refl, sym, ap, ◌∙◌, ◌⊎◌, inl, inr, Bool, true, false, none, some, List, [], ◌∷◌,
  ◌==◌, Bool-cases, Option-cases, ==_iff,
}
use os.Cache.Defs.{find_first, find_last, without}

abbrev pub In : ℕ → List ℕ → Type 0
In b [] = ⊥
In b (c ∷ cs) = (b ≡ c) ⊎ In b cs

same_some : {b c : ℕ} → some c ≡ some b → b ≡ c
same_some e = cc

none≢some : {b : ℕ} → none ≢ some b
none≢some e = cc

module _ (test : ℕ → Bool) where
  pub find_first_found :
      (bs : List ℕ) (b : ℕ) → find_first test bs ≡ some b → In b bs × (test b ≡ true)
  unfolding find_first
  find_first_found [] b e = cc
  find_first_found (c ∷ cs) b e = elim (Bool-cases (test c)) [
    | inl z ↦ let here = same_some (sym (rw (z) refl) ∙ e) in (inl here, ap test here ∙ z)
    | inr z ↦ let (at, ok) = find_first_found cs b (sym (rw (z) refl) ∙ e) in (inr at, ok)
  ]

  pub find_first_missed :
      (bs : List ℕ) (b : ℕ) → find_first test bs ≡ none → In b bs → test b ≡ false
  unfolding find_first
  find_first_missed [] b e at = absurd at
  find_first_missed (c ∷ cs) b e at = elim (Bool-cases (test c)) [
    | inl z ↦ absurd (none≢some {b = c} (sym e ∙ rw (z) refl))
    | inr z ↦ elim at [
      | inl here ↦ rw (here) z
      | inr later ↦ find_first_missed cs b (sym (rw (z) refl) ∙ e) later
    ]
  ]

  pub find_last_found :
      (bs : List ℕ) (b : ℕ) → find_last test bs ≡ some b → In b bs × (test b ≡ true)
  unfolding find_last
  find_last_found [] b e = cc
  find_last_found (c ∷ cs) b e = elim (Option-cases (find_last test cs)) [
    | inr (d, z) ↦ let (at, ok) = find_last_found cs b (z ∙ (sym (rw (z) refl) ∙ e)) in (inr at, ok)
    | inl z ↦ elim (Bool-cases (test c)) [
      | inl y ↦ let here = same_some (sym (rw (z, y) refl) ∙ e) in (inl here, ap test here ∙ y)
      | inr y ↦ absurd (none≢some (sym (rw (z, y) refl) ∙ e))
    ]
  ]

pub In-without : (b x : ℕ) (bs : List ℕ) → In x bs → (x ≡ b) ⊎ In x (without b bs)
In-without b x [] at = absurd at
In-without b x (c ∷ cs) at = elim (Bool-cases (c == b)) [
  | inl z ↦ elim at [
    | inl here ↦ inl (here ∙ (==_iff c b).0 z)
    | inr later ↦ rw (z) (In-without b x cs later)
  ]
  | inr z ↦ elim at [
    | inl here ↦ inr (rw (z) (inl here))
    | inr later ↦ elim (In-without b x cs later) [
      | inl same ↦ inl same
      | inr kept ↦ inr (rw (z) (inr kept))
    ]
  ]
]

pub without-In : (b x : ℕ) (bs : List ℕ) → In x (without b bs) → In x bs
without-In b x [] at = absurd at
without-In b x (c ∷ cs) at = elim (Bool-cases (c == b)) [
  | inl z ↦ let kept : In x (without b cs) = rw (z) at at in inr (without-In b x cs kept)
  | inr z ↦
      let kept : In x (c ∷ without b cs) = rw (z) at at in
      elim kept [ inl here ↦ inl here | inr later ↦ inr (without-In b x cs later) ]
]

pub find_last_missed :
    (test : ℕ → Bool) (bs : List ℕ) (b : ℕ) → find_last test bs ≡ none → In b bs → test b ≡ false
unfolding find_last
find_last_missed test [] b e at = absurd at
find_last_missed test (c ∷ cs) b e at = elim (Option-cases (find_last test cs)) [
  | inr (d, z) ↦ absurd (none≢some {b = d} (sym e ∙ rw (z) refl))
  | inl z ↦ elim (Bool-cases (test c)) [
    | inl y ↦ absurd (none≢some {b = c} (sym e ∙ rw (z, y) refl))
    | inr y ↦ elim at [ inl here ↦ rw (here) y | inr later ↦ find_last_missed test cs b z later ]
  ]
]
