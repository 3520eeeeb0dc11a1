-- ===== src/Grep/Tests.antt =====
-- Matches at concrete texts.
use os.Base.{ℕ, ◌≤◌, ◌≡◌, ◌↔◌, refl, true, false, drop, codes}
use os.Grep.Defs.{matchstar, matchhere, match, match_from}
use os.Grep.Matches.{match_iff}

match_example :
    (match (codes "ab") (codes "aab") ≡ true)
    ↔ ((n : ℕ) × (n ≤ 3) × (matchhere (codes "ab") (drop n (codes "aab")) ≡ true))
match_example = match_iff 97 (codes "b") (codes "aab") refl

matches_to_end : match (codes "^a*b$") (codes "aab") ≡ true
unfolding match matchhere matchstar
matches_to_end = refl

no_match : match (codes "ab*$") (codes "cd") ≡ false
unfolding match match_from matchhere matchstar
no_match = refl
