-- ===== src/Grep/Defs.antt =====
-- `match`, `matchhere` and `matchstar` of xv6-public/grep.c. A string is the list of its bytes before
-- the NUL, none of which is 0.
use os.Base.{ℕ, Bool, true, false, ◌||◌, List, [], ◌∷◌, ◌==◌, if◌then◌else◌}

-- '$', '*', '.' and '^'.
abbrev pub dollar : ℕ
dollar = 36

abbrev pub star : ℕ
star = 42

abbrev pub dot : ℕ
dot = 46

abbrev pub caret : ℕ
caret = 94

abbrev pub is_empty : List ℕ → Bool
is_empty [] = true
is_empty (x ∷ t) = false

-- `*text!='\0' && (re[0]=='.' || re[0]==*text)`, and what follows it.
abbrev pub match_one : ℕ → (List ℕ → Bool) → List ℕ → Bool
match_one c rest [] = false
match_one c rest (x ∷ t) = if c == dot || c == x then rest t else false

-- `matchstar`, where `rest` is `matchhere` of the expression after the star.
unfoldable pub matchstar : ℕ → (List ℕ → Bool) → List ℕ → Bool
matchstar c rest [] = rest []
matchstar c rest (x ∷ t) =
    let more = matchstar c rest t in
    if rest (x ∷ t) then true else if x == c || c == dot then more else false

unfoldable pub matchhere : List ℕ → List ℕ → Bool
matchhere [] text = true
matchhere (c ∷ []) text =
    if c == dollar then is_empty text else match_one c (λ t. matchhere [] t) text
matchhere (c ∷ d ∷ re) text =
    if d == star
    then matchstar c (λ t. matchhere re t) text
    else match_one c (λ t. matchhere (d ∷ re) t) text

-- The loop of `match`, which looks at an empty rest of the text too.
unfoldable pub match_from : (List ℕ → Bool) → List ℕ → Bool
match_from here [] = here []
match_from here (x ∷ t) = let more = match_from here t in if here (x ∷ t) then true else more

unfoldable pub match : List ℕ → List ℕ → Bool
match [] text = match_from (matchhere []) text
match (c ∷ re) text = if c == caret then matchhere re text else match_from (matchhere (c ∷ re)) text
