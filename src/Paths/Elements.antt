-- ===== src/Paths/Elements.antt =====
-- The names that `namex` of xv6-public/fs.c looks up, and the fields of the path.
use os.Base.{
  ℕ, ap₂, zero, suc, ◌≤◌, ◌≡◌, ◌≢◌, refl, sym, ap, ◌∙◌, subst, inl, inr, false, none, some, List,
  [], ◌∷◌, map, ◌==◌, if◌then◌else◌, length, All, Bool-cases, arith,
}
use os.Paths.Defs.{slash, dirsiz, skip_slashes, element, write_name, skipelem}
use os.Paths.Names.{read_name, first, read_name-write_name}

-- The names that the loop of `namex` takes off a path, in at most k rounds.
unfoldable pub names_of : ℕ → List ℕ → (ℕ → ℕ) → List (List ℕ)
names_of zero path name = []
names_of (suc k) path name = elim (skipelem path name) [
  | none ↦ []
  | some (rest, name') ↦ read_name dirsiz 0 name' ∷ names_of k rest name'
]

abbrev pub keep : List ℕ → List (List ℕ) → List (List ℕ)
keep [] ws = ws
keep (c ∷ cs) ws = (c ∷ cs) ∷ ws

-- The first field of a text, which may be empty, and the others that are not.
unfoldable pub fields : List ℕ → List ℕ × List (List ℕ)
fields [] = ([], [])
fields (c ∷ cs) = let (w, ws) = fields cs in if c == slash then ([], keep w ws) else (c ∷ w, ws)

-- The fields between slashes that are not empty.
abbrev pub elements : List ℕ → List (List ℕ)
elements path = keep (fields path).0 (fields path).1

elements-skip_slashes : (p : List ℕ) → elements (skip_slashes p) ≡ elements p
unfolding skip_slashes fields
elements-skip_slashes [] = refl
elements-skip_slashes (c ∷ cs) = elim (Bool-cases (c == slash)) [
  | inl z ↦ rw (z) (elements-skip_slashes cs)
  | inr z ↦ let same : skip_slashes (c ∷ cs) ≡ c ∷ cs = rw (z) refl in ap elements same
]

fields-element :
    (p : List ℕ) → ((fields p).0 ≡ (element p).0) × ((fields p).1 ≡ elements (element p).1)
unfolding fields element
fields-element [] = (refl, refl)
fields-element (c ∷ cs) =
    let (e, e') = fields-element cs in
    elim (Bool-cases (c == slash)) [
      | inl z ↦ rw (z) (refl, rw (z) refl)
      | inr z ↦ rw (z) (ap (λ l. c ∷ l) e, e')
    ]

abbrev pub NoNul : List ℕ → Type 0
NoNul bs = All (λ b. b ≢ 0) bs

skip_slashes_lem :
    (p : List ℕ) → NoNul p → NoNul (skip_slashes p) × (length (skip_slashes p) ≤ length p)
unfolding skip_slashes
skip_slashes_lem [] h = (tt, omega arith)
skip_slashes_lem (c ∷ cs) (h, hs) = elim (Bool-cases (c == slash)) [
  | inl z ↦ let (h', low) = skip_slashes_lem cs hs in rw (z) (h', omega arith)
  | inr z ↦ rw (z) ((h, hs), omega arith)
]

-- What is behind skipped slashes does not begin with one.
skip_slashes_head :
    (p : List ℕ) (c : ℕ) (cs : List ℕ) → skip_slashes p ≡ c ∷ cs → (c == slash) ≡ false
unfolding skip_slashes
skip_slashes_head [] c cs e = cc
skip_slashes_head (b ∷ bs) c cs e = elim (Bool-cases (b == slash)) [
  | inl z ↦ skip_slashes_head bs c cs (sym (rw (z) refl) ∙ e)
  | inr z ↦
      let same : skip_slashes (b ∷ bs) ≡ b ∷ bs = rw (z) refl in
      subst (λ x. (x == slash) ≡ false) (head (sym same ∙ e)) z
]
  where
    head : {a b : ℕ} {xs ys : List ℕ} → a ∷ xs ≡ b ∷ ys → a ≡ b
    head e = cc

element_lem :
    (p : List ℕ)
    → NoNul p
    → NoNul (element p).0 × NoNul (element p).1 × (length (element p).1 ≤ length p)
unfolding element
element_lem [] h = (tt, tt, omega arith)
element_lem (c ∷ cs) (h, hs) =
    let (a, b, low) = element_lem cs hs in
    elim (Bool-cases (c == slash)) [
      | inl z ↦ rw (z) (tt, (h, hs), omega arith)
      | inr z ↦ rw (z) ((h, a), b, omega arith)
    ]

element_shrinks :
    (c : ℕ) (cs : List ℕ)
    → NoNul cs
    → (c == slash) ≡ false
    → length (element (c ∷ cs)).1 ≤ length cs
unfolding element
element_shrinks c cs h z = rw (z) (element_lem cs h).2

elements_nil : elements [] ≡ []
unfolding fields
elements_nil = refl

elements_cons :
    (c : ℕ) (cs : List ℕ)
    → (c == slash) ≡ false
    → elements (c ∷ cs) ≡ (element (c ∷ cs)).0 ∷ elements (element (c ∷ cs)).1
unfolding fields element
elements_cons c cs z = let (e, e') = fields-element cs in rw (z) (ap₂ (λ a b. (c ∷ a) ∷ b) e e')

-- The names that `namex` takes off a path, in as many rounds as the path has bytes, are the fields of
-- the path between slashes, each cut to DIRSIZ bytes, the empty ones left out.
pub names_of-elements :
    (k : ℕ) (p : List ℕ) (name : ℕ → ℕ)
    → NoNul p
    → length p ≤ k
    → names_of k p name ≡ map (first dirsiz) (elements p)
unfolding names_of skipelem
names_of-elements zero [] name h low = ap (map (first dirsiz)) (sym elements_nil)
names_of-elements zero (c ∷ cs) name h low = absurd (omega arith)
names_of-elements (suc k) p name h low =
    rounds (λ q n hq hl. names_of-elements k q n hq hl) (skip_slashes p) refl
      (skip_slashes_lem p h).0 (skip_slashes_lem p h).1
  where
    rounds :
        ((q : List ℕ) (n : ℕ → ℕ)
          → NoNul q
          → length q ≤ k
          → names_of k q n ≡ map (first dirsiz) (elements q))
        → (q : List ℕ) → skip_slashes p ≡ q
        → NoNul q
        → length q ≤ length p
        → names_of (suc k) p name ≡ map (first dirsiz) (elements p)
    rounds again [] e set shorter =
        rw (e, names_of, skipelem)
          (ap (map (first dirsiz))
            (sym elements_nil ∙ ap elements (sym e) ∙ elements-skip_slashes p))
    rounds again (c ∷ cs) e set shorter =
        let z : (c == slash) ≡ false = skip_slashes_head p c cs e in
        let (of_name, of_rest, _) = element_lem (c ∷ cs) set in
        let (of_rest', less) = skip_slashes_lem (element (c ∷ cs)).1 of_rest in
        let shrunk : length (element (c ∷ cs)).1 ≤ length cs = element_shrinks c cs set.1 z in
        let later : names_of k (skip_slashes (element (c ∷ cs)).1)
              (write_name (element (c ∷ cs)).0 name)
            ≡ map (first dirsiz) (elements (skip_slashes (element (c ∷ cs)).1)) =
          again (skip_slashes (element (c ∷ cs)).1) (write_name (element (c ∷ cs)).0 name) of_rest'
            (omega arith) in
        let split : elements p ≡ (element (c ∷ cs)).0 ∷ elements (element (c ∷ cs)).1 =
          sym (elements-skip_slashes p) ∙ ap elements e ∙ elements_cons c cs z in
        rw (e, names_of, skipelem)
          (ap₂ (λ a b. a ∷ b) (read_name-write_name (element (c ∷ cs)).0 name of_name)
              (later ∙ ap (map (first dirsiz)) (elements-skip_slashes (element (c ∷ cs)).1))
            ∙ ap (map (first dirsiz)) (sym split))
