-- ===== src/Paths/Tests.antt =====
-- The paths that the comment on `skipelem` gives, and the theorem at one of them.
use os.Base.{ℕ, ◌≡◌, refl, Option, none, some, List, [], ◌∷◌, map, codes, arith}
use os.Paths.Defs.{dirsiz, skip_slashes, element, skipelem}
use os.Paths.Names.{first}
use os.Paths.Elements.{names_of, fields, elements, names_of-elements}

abbrev no_name : ℕ → ℕ
no_name j = 120

abbrev rest_of : Option (List ℕ × (ℕ → ℕ)) → List ℕ
rest_of none = codes "none"
rest_of (some (rest, _)) = rest

deep_test : rest_of (skipelem (codes "///a//bb") no_name) ≡ codes "bb"
unfolding skipelem skip_slashes element
deep_test = refl

slashes_test : skipelem (codes "////") no_name ≡ none
unfolding skipelem skip_slashes
slashes_test = refl

fields_test : elements (codes "//a/bb//c/") ≡ codes "a" ∷ codes "bb" ∷ codes "c" ∷ []
unfolding fields
fields_test = refl

names_example : names_of 6 (codes "/a//bb") no_name ≡ map (first dirsiz) (elements (codes "/a//bb"))
names_example =
    names_of-elements 6 (codes "/a//bb") no_name
      (
        (λ e. omega arith),
        (
          (λ e. omega arith),
          (
            (λ e. omega arith),
            ((λ e. omega arith), ((λ e. omega arith), ((λ e. omega arith), tt))),
          ),
        ),
      )
      (omega arith)
