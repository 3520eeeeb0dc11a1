-- ===== src/Paths/Defs.antt =====
-- `skipelem` of xv6-public/fs.c, and the loop of `namex` over it.
use os.Base.{
  ℕ, zero, suc, ◌+◌, not, Option, none, some, List, [], ◌∷◌, ◌==◌, leb, length, if◌then◌else◌,
}

-- '/'
abbrev pub slash : ℕ
slash = 47

-- DIRSIZ
abbrev pub dirsiz : ℕ
dirsiz = 14

-- `while(*path == '/') path++`, on the bytes of the path before its NUL.
unfoldable pub skip_slashes : List ℕ → List ℕ
skip_slashes [] = []
skip_slashes (c ∷ cs) = let rest = skip_slashes cs in if c == slash then rest else c ∷ cs

-- `while(*path != '/' && *path != 0) path++`: the bytes passed, and the rest.
unfoldable pub element : List ℕ → List ℕ × List ℕ
element [] = ([], [])
element (c ∷ cs) =
    let (name, rest) = element cs in if not (c == slash) then (c ∷ name, rest) else ([], c ∷ cs)

-- `memmove(name, s, n)` for the bytes at s.
unfoldable pub copy_name : ℕ → ℕ → List ℕ → (ℕ → ℕ) → ℕ → ℕ
copy_name zero i bytes name = name
copy_name (suc n) i [] name = name
copy_name (suc n) i (b ∷ bs) name = copy_name n (i + 1) bs (λ j. if j == i then b else name j)

-- The name that `skipelem` writes for an element.
unfoldable pub write_name : List ℕ → (ℕ → ℕ) → ℕ → ℕ
write_name bytes name =
    if leb dirsiz (length bytes)
    then copy_name dirsiz 0 bytes name
    else (λ j. if j == length bytes then 0 else copy_name (length bytes) 0 bytes name j)

-- `skipelem`: the rest of the path and the name; 0 is `none`.
unfoldable pub skipelem : List ℕ → (ℕ → ℕ) → Option (List ℕ × (ℕ → ℕ))
skipelem path name = elim (skip_slashes path) [
  | [] ↦ none
  | c ∷ cs ↦ let (bytes, rest) = element (c ∷ cs) in some (skip_slashes rest, write_name bytes name)
]
