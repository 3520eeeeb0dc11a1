-- ===== src/Paths/Names.antt =====
-- The text of the names that `skipelem` of xv6-public/fs.c writes.
use os.Base.{
  ℕ, zero, suc, ◌+◌, ◌≤◌, ◌<◌, ◌≡◌, ◌≢◌, refl, sym, ap, ◌∙◌, inl, inr, true, false, List, [], ◌∷◌,
  ◌==◌, leb, if◌then◌else◌, length, All, Bool-cases, ==_iff, arith,
}
use os.Paths.Defs.{dirsiz, copy_name, write_name}

-- The text of a name: its bytes up to a NUL, n at most.
unfoldable pub read_name : ℕ → ℕ → (ℕ → ℕ) → List ℕ
read_name zero i name = []
read_name (suc n) i name =
    let rest = read_name n (i + 1) name in if name i == 0 then [] else name i ∷ rest

-- The first n members of a list.
unfoldable pub first : ℕ → List ℕ → List ℕ
first zero xs = []
first (suc n) [] = []
first (suc n) (x ∷ xs) = x ∷ first n xs

-- The bytes that a copy leaves, and those before them.
unwritten :
    (n i : ℕ) (bs : List ℕ) (name : ℕ → ℕ) (j : ℕ) → j < i → copy_name n i bs name j ≡ name j
unfolding copy_name
unwritten zero i bs name j h = refl
unwritten (suc n) i [] name j h = refl
unwritten (suc n) i (b ∷ bs) name j h =
    unwritten n (i + 1) bs (λ x. if x == i then b else name x) j (omega arith)
    ∙ rw (apart j i h) refl
  where
    apart : (j i : ℕ) → j < i → (j == i) ≡ false
    apart j i h = ground arith

read_name-copy_name :
    (n i : ℕ) (bs : List ℕ) (name : ℕ → ℕ)
    → All (λ b. b ≢ 0) bs
    → n ≤ length bs
    → read_name n i (copy_name n i bs name) ≡ first n bs
unfolding read_name copy_name first
read_name-copy_name zero i bs name h low = refl
read_name-copy_name (suc n) i [] name h low = absurd (omega arith)
read_name-copy_name (suc n) i (b ∷ bs) name (h, hs) low =
    let name1 : ℕ → ℕ = λ x. if x == i then b else name x in
    let here : copy_name n (i + 1) bs name1 i ≡ b =
      unwritten n (i + 1) bs name1 i (omega arith) ∙ rw ((==_iff i i).1 refl) refl in
    let set : (b == 0) ≡ false = differ b h in
    rw (here, set) (ap (λ l. b ∷ l) (read_name-copy_name n (i + 1) bs name1 hs (omega arith)))
  where
    differ : (b : ℕ) → b ≢ 0 → (b == 0) ≡ false
    differ b h = ground arith

-- A text that ends with a NUL.
read_name_stops :
    (m n i : ℕ) (f g : ℕ → ℕ)
    → ((j : ℕ) → j < m → f (i + j) ≡ g (i + j))
    → f (i + m) ≡ 0
    → length (read_name m i g) ≡ m
    → m < n
    → read_name n i f ≡ read_name m i g
unfolding read_name
read_name_stops m zero i f g same nul full more = absurd (omega arith)
read_name_stops zero (suc n) i f g same nul full more =
    let here : i + 0 ≡ i = omega arith in
    let stop : f i ≡ 0 = ap f (sym here) ∙ nul in rw (stop) refl
read_name_stops (suc m) (suc n) i f g same nul full more =
    let here : i + 0 ≡ i = omega arith in
    let alike : f i ≡ g i = ap f (sym here) ∙ same 0 (omega arith) ∙ ap g here in
    elim (Bool-cases (g i == 0)) [
      | inl z ↦ absurd (empty (sym (rw (z) refl) ∙ full))
      | inr z ↦
          let rest : length (read_name m (i + 1) g) ≡ m = less (sym (rw (z) refl) ∙ full) in
          let end : i + 1 + m ≡ i + suc m = omega arith in
          rw (alike, z)
            (ap (λ l. g i ∷ l)
              (read_name_stops m n (i + 1) f g (λ j h. shifted j h) (ap f end ∙ nul) rest
                (omega arith)))
    ]
  where
    empty : 0 ≡ suc m → ⊥
    empty e = omega arith

    less : {k : ℕ} → suc k ≡ suc m → k ≡ m
    less e = omega arith

    shifted : (j : ℕ) → j < m → f (i + 1 + j) ≡ g (i + 1 + j)
    shifted j h =
        let at : i + 1 + j ≡ i + suc j = omega arith in
        ap f at ∙ same (suc j) (omega arith) ∙ ap g (sym at)

first_whole : (n : ℕ) (xs : List ℕ) → length xs ≤ n → first n xs ≡ xs
unfolding first
first_whole zero [] h = refl
first_whole zero (x ∷ xs) h = absurd (omega arith)
first_whole (suc n) [] h = refl
first_whole (suc n) (x ∷ xs) h = ap (λ l. x ∷ l) (first_whole n xs (omega arith))

pub read_name-write_name :
    (bs : List ℕ) (name : ℕ → ℕ)
    → All (λ b. b ≢ 0) bs
    → read_name dirsiz 0 (write_name bs name) ≡ first dirsiz bs
unfolding write_name
read_name-write_name bs name set = elim (Bool-cases (leb dirsiz (length bs))) [
  | inl z ↦ rw (z) (read_name-copy_name dirsiz 0 bs name set (long (length bs) z))
  | inr z ↦
      let whole : read_name (length bs) 0 (copy_name (length bs) 0 bs name) ≡ bs =
        read_name-copy_name (length bs) 0 bs name set (omega arith)
        ∙ first_whole (length bs) bs (omega arith) in
      rw (z) (
        read_name_stops (length bs) dirsiz 0
          (λ j. if j == length bs then 0 else copy_name (length bs) 0 bs name j)
          (copy_name (length bs) 0 bs name) (λ j h. rw (below j (length bs) h) refl)
          (rw (at_end (length bs)) refl) (ap length whole) (short (length bs) z)
        ∙ whole
        ∙ sym (first_whole dirsiz bs (omega (arith, short (length bs) z))))
]
  where
    long : (n : ℕ) → leb dirsiz n ≡ true → dirsiz ≤ n
    long n z = ground arith

    short : (n : ℕ) → leb dirsiz n ≡ false → n < dirsiz
    short n z = ground arith

    below : (j n : ℕ) → j < n → (0 + j == n) ≡ false
    below j n h = ground arith

    at_end : (n : ℕ) → (0 + n == n) ≡ true
    at_end n = ground arith
