-- ===== src/Numbers/Decimal.antt =====
-- Decimal text and its number, xv6-public/printf.c and ulib.c.
use os.Base.{
  ℕ, zero, suc, ◌+◌, ◌-◌, ◌*◌, ◌/◌, ◌%◌, ◌<◌, ◌≡◌, refl, ap, ◌∙◌, inl, inr, Bool, true, ◌&&◌, List,
  [], ◌∷◌, ◌++◌, append-nil, ◌==◌, leb, if◌then◌else◌, All, Bool-cases, arith,
}
use os.Numbers.Defs.{u32, digit, fill_digits, backwards, printint, atoi_from, atoi}

abbrev pub IsDigit : ℕ → Type 0
IsDigit c = (leb 48 c && leb c 57) ≡ true

unfoldable pub ten_to : ℕ → ℕ
ten_to zero = 1
ten_to (suc k) = 10 * ten_to k

-- One digit more at the end.
atoi_from-snoc :
    (n : ℕ) (cs : List ℕ) (d : ℕ)
    → All IsDigit cs
    → IsDigit d
    → atoi_from n (cs ++ (d ∷ [])) ≡ (atoi_from n cs * 10 + d - 48) % u32
unfolding atoi_from
atoi_from-snoc n [] d h q = rw (q) refl
atoi_from-snoc n (c ∷ cs) d (p, h) q = rw (p) (atoi_from-snoc ((n * 10 + c - 48) % u32) cs d h q)

All-snoc : (cs : List ℕ) (d : ℕ) → All IsDigit cs → IsDigit d → All IsDigit (cs ++ (d ∷ []))
All-snoc [] d h q = (q, tt)
All-snoc (c ∷ cs) d (p, h) q = (p, All-snoc cs d h q)

digit-IsDigit : (d : ℕ) → d < 10 → (digit d ≡ 48 + d) × IsDigit (48 + d)
digit-IsDigit d h = (ground arith, ground arith)

-- The digits in the order of putting them out.
abbrev shown : ℕ → ℕ → List ℕ
shown k x = backwards (fill_digits k 10 x)

atoi_nil : (n : ℕ) → atoi_from n [] ≡ n
unfolding atoi_from
atoi_nil n = refl

-- Text whose number is that of x without its last digit, with that digit.
extended :
    (cs : List ℕ) (x : ℕ)
    → x < u32
    → All IsDigit cs
    → atoi_from 0 cs ≡ x / 10
    → All IsDigit (cs ++ (digit (x % 10) ∷ [])) × (atoi_from 0 (cs ++ (digit (x % 10) ∷ [])) ≡ x)
extended cs x small ds value =
    let (e, q) = digit-IsDigit (x % 10) (omega arith) in
    rw (e) (
      All-snoc cs (48 + x % 10) ds q,
      atoi_from-snoc 0 cs (48 + x % 10) ds q ∙ rw (value) (omega arith),
    )

shown_lem :
    (k x : ℕ) → x < ten_to k → x < u32 → All IsDigit (shown k x) × (atoi_from 0 (shown k x) ≡ x)
unfolding fill_digits backwards ten_to
shown_lem zero x h small = let nothing : 0 ≡ x = omega arith in (tt, atoi_nil 0 ∙ nothing)
shown_lem (suc k) x h small =
    let (ds, value) = shown_lem k (x / 10) (omega arith) (omega arith) in
    elim (Bool-cases (x / 10 == 0)) [
      | inl z ↦
          let nothing : 0 ≡ x / 10 = none_left x z in
          rw (z) (extended [] x small tt (atoi_nil 0 ∙ nothing))
      | inr z ↦ rw (z) (extended (backwards (fill_digits k 10 (x / 10))) x small ds value)
    ]
  where
    none_left : (x : ℕ) → (x / 10 == 0) ≡ true → 0 ≡ x / 10
    none_left x z = ground arith

-- The text after a minus sign is no number for `atoi`.
backwards-append : (cs : List ℕ) (d : ℕ) → backwards (cs ++ (d ∷ [])) ≡ d ∷ backwards cs
unfolding backwards
backwards-append [] d = refl
backwards-append (c ∷ cs) d = ap (λ l. l ++ (c ∷ [])) (backwards-append cs d)

minus_sign : (n : ℕ) (cs : List ℕ) → atoi_from n (45 ∷ cs) ≡ n
unfolding atoi_from
minus_sign n cs = refl

-- `atoi` of what `printint` puts out in base 10 for a word is the word, but 0 for one that counts as
-- negative.
pub atoi-printint :
    (x : ℕ) (sgn : Bool)
    → x < u32
    → atoi (printint x 10 sgn) ≡ (if sgn && leb 2147483648 x then 0 else x)
unfolding atoi printint ten_to
atoi-printint x sgn small = elim (Bool-cases (sgn && leb 2147483648 x)) [
  | inr z ↦
      let whole : fill_digits 16 10 x ++ [] ≡ fill_digits 16 10 x =
        append-nil (fill_digits 16 10 x) in
      rw (z, whole) (shown_lem 16 x (omega arith) small).1
  | inl z ↦
      rw (z, backwards-append (fill_digits 16 10 ((u32 - x) % u32)) 45)
        (minus_sign 0 (backwards (fill_digits 16 10 ((u32 - x) % u32))))
]
