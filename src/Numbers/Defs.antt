-- ===== src/Numbers/Defs.antt =====
-- `printint` of xv6-public/printf.c and `atoi` of xv6-public/ulib.c.
use os.Base.{
  ℕ, zero, suc, ◌+◌, ◌-◌, ◌*◌, ◌/◌, ◌%◌, ◌^◌, Bool, ◌&&◌, List, [], ◌∷◌, ◌++◌, ◌==◌, ltb, leb,
  if◌then◌else◌,
}

abbrev pub u32 : ℕ
u32 = 2 ^ 32

-- `digits[d]`
abbrev pub digit : ℕ → ℕ
digit d = if ltb d 10 then 48 + d else 55 + d

-- The loop of `printint` that fills `buf`, which has room for k bytes more.
unfoldable pub fill_digits : ℕ → ℕ → ℕ → List ℕ
fill_digits zero base x = []
fill_digits (suc k) base x =
    let rest = fill_digits k base (x / base) in
    digit (x % base) ∷ (if x / base == 0 then [] else rest)

-- The loop that puts `buf` out from its end.
unfoldable pub backwards : List ℕ → List ℕ
backwards [] = []
backwards (c ∷ cs) = backwards cs ++ (c ∷ [])

-- `printint` of a word: what it puts out.
unfoldable pub printint : ℕ → ℕ → Bool → List ℕ
printint xx base sgn =
    let neg = sgn && leb (2 ^ 31) xx in
    let x = if neg then (u32 - xx) % u32 else xx in
    backwards (fill_digits 16 base x ++ (if neg then 45 ∷ [] else []))

-- The loop of `atoi` with the number so far, on the bytes before the NUL.
unfoldable pub atoi_from : ℕ → List ℕ → ℕ
atoi_from n [] = n
atoi_from n (c ∷ cs) =
    let rest = atoi_from ((n * 10 + c - 48) % u32) cs in if leb 48 c && leb c 57 then rest else n

unfoldable pub atoi : List ℕ → ℕ
atoi s = atoi_from 0 s
