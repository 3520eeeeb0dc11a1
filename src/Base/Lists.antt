-- ===== src/Base/Lists.antt =====
-- Lists measured and indexed by native numbers: C arrays.
use Prim.Native.Nat.{ℕ, zero, suc, ◌+◌, ◌<◌, ◌≤◌}
use mathlib.Core.Path.{◌≡◌, refl, sym, ap, subst}
use mathlib.Core.Logic.{◌≢◌, inl, inr}
use mathlib.Core.Bool.{Bool, true, false}
use mathlib.Core.List.{List, [], ◌∷◌, ◌++◌, map}
use mathlib.Core.Option.{Option, none, some}
use native.Mathlib.Omega.{arith}
use os.Base.Tests.{◌==◌, if◌then◌else◌, Bool-cases, Option-cases}

module _ {ℓ} {A : Type ℓ} where
  abbrev pub length : List A → ℕ
  length [] = 0
  length (x ∷ xs) = suc (length xs)

  abbrev pub get_elem? : List A → ℕ → Option A
  get_elem? [] i = none
  get_elem? (x ∷ xs) zero = some x
  get_elem? (x ∷ xs) (suc i) = get_elem? xs i

  abbrev pub get_or : List A → ℕ → A → A
  get_or [] i d = d
  get_or (x ∷ xs) zero d = x
  get_or (x ∷ xs) (suc i) d = get_or xs i d

  -- A write out of bounds changes nothing.
  abbrev pub set : List A → ℕ → A → List A
  set [] i v = []
  set (x ∷ xs) zero v = v ∷ xs
  set (x ∷ xs) (suc i) v = x ∷ set xs i v

  abbrev pub take : ℕ → List A → List A
  take zero xs = []
  take (suc n) [] = []
  take (suc n) (x ∷ xs) = x ∷ take n xs

  abbrev pub drop : ℕ → List A → List A
  drop zero xs = xs
  drop (suc n) [] = []
  drop (suc n) (x ∷ xs) = drop n xs

  abbrev pub replicate : ℕ → A → List A
  replicate zero a = []
  replicate (suc n) a = a ∷ replicate n a

  -- `xs[i] = f(xs[i])`, nothing out of bounds.
  abbrev pub modify : List A → ℕ → (A → A) → List A
  modify [] i f = []
  modify (x ∷ xs) zero f = f x ∷ xs
  modify (x ∷ xs) (suc i) f = x ∷ modify xs i f

  -- The index of the first entry that passes a test, as a C scan finds it.
  abbrev pub find_index : (A → Bool) → List A → Option ℕ
  find_index test [] = none
  find_index test (x ∷ xs) =
      if test x then some 0 else elim (find_index test xs) [ none ↦ none | some i ↦ some (suc i) ]

  -- A predicate that holds of every entry.
  abbrev pub All {κ} : (A → Type κ) → List A → Type κ
  All P [] = Unit
  All P (x ∷ xs) = P x × All P xs

  pub length-append : (xs ys : List A) → length (xs ++ ys) ≡ length xs + length ys
  length-append [] ys = omega arith
  length-append (x ∷ xs) ys = omega (arith, length-append xs ys)

  pub length-set : (xs : List A) (i : ℕ) (v : A) → length (set xs i v) ≡ length xs
  length-set [] i v = refl
  length-set (x ∷ xs) zero v = refl
  length-set (x ∷ xs) (suc i) v = ap suc (length-set xs i v)

  pub get_elem?-set_self :
      (xs : List A) (i : ℕ) (v : A) → i < length xs → get_elem? (set xs i v) i ≡ some v
  get_elem?-set_self [] i v h = elim h [ ]
  get_elem?-set_self (x ∷ xs) zero v h = refl
  get_elem?-set_self (x ∷ xs) (suc i) v h = get_elem?-set_self xs i v (omega arith)

  pub get_elem?-set_ne :
      (xs : List A) (i j : ℕ) (v : A) → i ≢ j → get_elem? (set xs i v) j ≡ get_elem? xs j
  get_elem?-set_ne [] i j v h = refl
  get_elem?-set_ne (x ∷ xs) zero zero v h = absurd (h refl)
  get_elem?-set_ne (x ∷ xs) zero (suc j) v h = refl
  get_elem?-set_ne (x ∷ xs) (suc i) zero v h = refl
  get_elem?-set_ne (x ∷ xs) (suc i) (suc j) v h = get_elem?-set_ne xs i j v (λ e. h (ap suc e))

  pub get_or-set_self :
      (xs : List A) (i : ℕ) (v d : A) → i < length xs → get_or (set xs i v) i d ≡ v
  get_or-set_self [] i v d h = elim h [ ]
  get_or-set_self (x ∷ xs) zero v d h = refl
  get_or-set_self (x ∷ xs) (suc i) v d h = get_or-set_self xs i v d (omega arith)

  pub get_or-set_ne :
      (xs : List A) (i j : ℕ) (v d : A) → i ≢ j → get_or (set xs i v) j d ≡ get_or xs j d
  get_or-set_ne [] i j v d h = refl
  get_or-set_ne (x ∷ xs) zero zero v d h = absurd (h refl)
  get_or-set_ne (x ∷ xs) zero (suc j) v d h = refl
  get_or-set_ne (x ∷ xs) (suc i) zero v d h = refl
  get_or-set_ne (x ∷ xs) (suc i) (suc j) v d h = get_or-set_ne xs i j v d (λ e. h (ap suc e))

  pub All-set {κ} :
      (P : A → Type κ) (xs : List A) (i : ℕ) (v : A) → P v → All P xs → All P (set xs i v)
  All-set P [] i v p h = tt
  All-set P (x ∷ xs) zero v p h = (p, h.1)
  All-set P (x ∷ xs) (suc i) v p h = (h.0, All-set P xs i v p h.1)

  same : (x v : A) → some x ≡ some v → x ≡ v
  same x v e = cc

  pub All-get {κ} :
      (P : A → Type κ) (xs : List A) (i : ℕ) (v : A) → get_elem? xs i ≡ some v → All P xs → P v
  All-get P [] i v e h = cc
  All-get P (x ∷ xs) zero v e h = subst P (same x v e) h.0
  All-get P (x ∷ xs) (suc i) v e h = All-get P xs i v e h.1

  pub All-modify {κ} :
      (P : A → Type κ) (xs : List A) (i : ℕ) (f : A → A)
      → ((x : A) → P x → P (f x))
      → All P xs
      → All P (modify xs i f)
  All-modify P [] i f keep h = tt
  All-modify P (x ∷ xs) zero f keep h = (keep x h.0, h.1)
  All-modify P (x ∷ xs) (suc i) f keep h = (h.0, All-modify P xs i f keep h.1)

  pub All-map {κ} :
      (P : A → Type κ) (xs : List A) (f : A → A)
      → ((x : A) → P x → P (f x))
      → All P xs
      → All P (map f xs)
  All-map P [] f keep h = tt
  All-map P (x ∷ xs) f keep h = (keep x h.0, All-map P xs f keep h.1)

  pub length-modify : (xs : List A) (i : ℕ) (f : A → A) → length (modify xs i f) ≡ length xs
  length-modify [] i f = refl
  length-modify (x ∷ xs) zero f = refl
  length-modify (x ∷ xs) (suc i) f = ap suc (length-modify xs i f)

  pub get_elem?-modify_self :
      (xs : List A) (i : ℕ) (f : A → A) {x : A}
      → get_elem? xs i ≡ some x
      → get_elem? (modify xs i f) i ≡ some (f x)
  get_elem?-modify_self [] i f e = cc
  get_elem?-modify_self (x ∷ xs) zero f e = cc
  get_elem?-modify_self (x ∷ xs) (suc i) f e = get_elem?-modify_self xs i f e

  pub get_elem?-modify_ne :
      (xs : List A) (i j : ℕ) (f : A → A) → i ≢ j → get_elem? (modify xs i f) j ≡ get_elem? xs j
  get_elem?-modify_ne [] i j f h = refl
  get_elem?-modify_ne (x ∷ xs) zero zero f h = absurd (h refl)
  get_elem?-modify_ne (x ∷ xs) zero (suc j) f h = refl
  get_elem?-modify_ne (x ∷ xs) (suc i) zero f h = refl
  get_elem?-modify_ne (x ∷ xs) (suc i) (suc j) f h =
      get_elem?-modify_ne xs i j f (λ e. h (ap suc e))

  pub find_index-test :
      (test : A → Bool) (xs : List A) (i : ℕ)
      → find_index test xs ≡ some i
      → (x : A) × (get_elem? xs i ≡ some x) × (test x ≡ true)
  find_index-test test [] i e = cc
  find_index-test test (x ∷ xs) i e = elim (Bool-cases (test x)) [
    | inl z ↦ (x, subst (λ k. get_elem? (x ∷ xs) k ≡ some x) (first z) refl, z)
    | inr z ↦ elim (Option-cases (find_index test xs)) [
      | inl n ↦ ground arith
      | inr (k, f) ↦
          let (y, g, t) = find_index-test test xs k f in
          (y, subst (λ k. get_elem? (x ∷ xs) k ≡ some y) (later z k f) g, t)
    ]
  ]
    where
      first : test x ≡ true → 0 ≡ i
      first z = ground arith

      later : test x ≡ false → (k : ℕ) → find_index test xs ≡ some k → suc k ≡ i
      later z k f = ground arith

  pub find_index-modify :
      (test : A → Bool) (xs : List A) (i : ℕ) (f : A → A)
      → ((x : A) → test (f x) ≡ test x)
      → find_index test (modify xs i f) ≡ find_index test xs
  find_index-modify test [] i f keep = refl
  find_index-modify test (x ∷ xs) zero f keep = rw (keep x)
  find_index-modify test (x ∷ xs) (suc i) f keep = rw (find_index-modify test xs i f keep)

  pub lt-length_of_some : (xs : List A) (i : ℕ) {x : A} → get_elem? xs i ≡ some x → i < length xs
  lt-length_of_some [] i e = cc
  lt-length_of_some (x ∷ xs) zero e = omega arith
  lt-length_of_some (x ∷ xs) (suc i) e = omega (arith, lt-length_of_some xs i e)

  pub length-le_of_none : (xs : List A) (i : ℕ) → get_elem? xs i ≡ none → length xs ≤ i
  length-le_of_none [] i e = omega arith
  length-le_of_none (x ∷ xs) zero e = cc
  length-le_of_none (x ∷ xs) (suc i) e = omega (arith, length-le_of_none xs i e)

  pub get_elem?-modify_inv :
      (xs : List A) (i j : ℕ) (f : A → A) (y : A)
      → get_elem? (modify xs i f) j ≡ some y
      → (x : A) × (get_elem? xs j ≡ some x) × (y ≡ (if i == j then f x else x))
  get_elem?-modify_inv [] i j f y e = cc
  get_elem?-modify_inv (x ∷ xs) zero zero f y e = (x, refl, cc)
  get_elem?-modify_inv (x ∷ xs) zero (suc j) f y e = (y, e, ground arith)
  get_elem?-modify_inv (x ∷ xs) (suc i) zero f y e = (x, refl, ground arith)
  get_elem?-modify_inv (x ∷ xs) (suc i) (suc j) f y e =
      let (z, at, g) = get_elem?-modify_inv xs i j f y e in
      (z, at, ground (arith, Bool-cases (i == j), Bool-cases (suc i == suc j)))

module _ {ℓ κ} {A : Type ℓ} {B : Type κ} where
  pub get_elem?-map :
      (f : A → B) (xs : List A) (i : ℕ) {x : A}
      → get_elem? xs i ≡ some x
      → get_elem? (map f xs) i ≡ some (f x)
  get_elem?-map f [] i e = cc
  get_elem?-map f (x ∷ xs) zero e = cc
  get_elem?-map f (x ∷ xs) (suc i) e = get_elem?-map f xs i e

  pub get_elem?-map_inv :
      (f : A → B) (xs : List A) (i : ℕ) (y : B)
      → get_elem? (map f xs) i ≡ some y
      → (x : A) × (get_elem? xs i ≡ some x) × (f x ≡ y)
  get_elem?-map_inv f [] i y e = cc
  get_elem?-map_inv f (x ∷ xs) zero y e = (x, refl, cc)
  get_elem?-map_inv f (x ∷ xs) (suc i) y e = get_elem?-map_inv f xs i y e

  pub length-map : (f : A → B) (xs : List A) → length (map f xs) ≡ length xs
  length-map f [] = refl
  length-map f (x ∷ xs) = ap suc (length-map f xs)

module _ {ℓ} {A : Type ℓ} where
  -- A second change of an entry can undo the first.
  pub modify_undo :
      (xs : List A) (i : ℕ) (f g : A → A) (a : A)
      → get_elem? xs i ≡ some a
      → g (f a) ≡ a
      → modify (modify xs i f) i g ≡ xs
  modify_undo [] i f g a h e = refl
  modify_undo (x ∷ xs) zero f g a h e = ap (λ y. y ∷ xs) (subst (λ y. g (f y) ≡ y) (sym same) e)
    where
      same : x ≡ a
      same = cc
  modify_undo (x ∷ xs) (suc i) f g a h e = ap (λ l. x ∷ l) (modify_undo xs i f g a h e)

  -- A scan finds an entry that passes its test if there is one.
  pub find_index_of_pass :
      (test : A → Bool) (xs : List A) (i : ℕ) (a : A)
      → get_elem? xs i ≡ some a
      → test a ≡ true
      → (j : ℕ) × (b : A) × (find_index test xs ≡ some j)
        × (get_elem? xs j ≡ some b)
        × (test b ≡ true)
  find_index_of_pass test [] i a h t = cc
  find_index_of_pass test (x ∷ xs) zero a h t = (0, a, rw (passes) refl, h, t)
    where
      passes : test x ≡ true
      passes = cc
  find_index_of_pass test (x ∷ xs) (suc i) a h t = elim (Bool-cases (test x)) [
    | inl z ↦ (0, x, rw (z) refl, refl, z)
    | inr z ↦
        let (j, b, found, at, ok) = find_index_of_pass test xs i a h t in
        (suc j, b, rw (z, found) refl, at, ok)
  ]
