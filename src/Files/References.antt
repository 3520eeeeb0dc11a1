-- ===== src/Files/References.antt =====
-- The reference counts of open files, xv6-public/file.c.
use os.Base.{
  ℕ, ◌+◌, ◌-◌, ◌≡◌, ◌≢◌, refl, sym, ap, ◌∙◌, false, Option, none, some, ◌==◌, arith, ==_iff,
  Option-cases, inl, inr, get_elem?, modify, find_index, find_index-test, find_index_of_pass,
  modify_undo, get_elem?-modify_self, get_elem?-modify_ne,
}
use os.Files.Defs.{File, Table, filealloc, filedup, still_open, fileclose}

-- What `filealloc` gives: no file if all are in use, else one that was not, with one reference, and
-- no other file is changed.
abbrev pub Allocates : Table → Option ℕ × Table → Type 0
Allocates t (none, t') = (t' ≡ t) × ((j : ℕ) (f : File) → get_elem? t j ≡ some f → f.ref ≢ 0)
Allocates t (some i, t') =
    (f : File) × (get_elem? t i ≡ some f)
    × (f.ref ≡ 0)
    × (get_elem? t' i ≡ some (record f { ref = 1 }))
    × ((j : ℕ) → i ≢ j → get_elem? t' j ≡ get_elem? t j)

in_use :
    (t : Table) (j : ℕ) (f : File)
    → find_index (λ f. f.ref == 0) t ≡ none
    → get_elem? t j ≡ some f
    → f.ref ≢ 0
in_use t j f none_found at e =
    let (k, _, found, _, _) =
      find_index_of_pass (λ f. f.ref == 0) t j f at ((==_iff f.ref 0).1 e) in
    never k (sym none_found ∙ found)
  where
    never : (k : ℕ) → none ≡ some k → ⊥
    never k e = cc

-- `filealloc` hands out a file that is not in use, with one reference, if there is one; it changes
-- no other, and nothing if all are in use.
pub filealloc-Allocates : (t : Table) → Allocates t (filealloc t)
unfolding filealloc
filealloc-Allocates t = elim (Option-cases (find_index (λ f. f.ref == 0) t)) [
  | inl z ↦ rw (z, filealloc) (refl, λ j f at. in_use t j f z at)
  | inr (i, z) ↦
      let (f, at, free) = find_index-test (λ f. f.ref == 0) t i z in
      rw (z, filealloc)
        (
          f,
          at,
          (==_iff f.ref 0).0 free,
          get_elem?-modify_self t i (λ f. record f { ref = 1 }) at,
          λ j ne. get_elem?-modify_ne t i j (λ f. record f { ref = 1 }) ne,
        )
]

-- A duplicate of a file in use has one reference more, and its `fileclose` leaves the file open and
-- the table as it was.
pub fileclose-filedup :
    (i : ℕ) (f : File) (t : Table)
    → get_elem? t i ≡ some f
    → f.ref ≢ 0
    → (t' : Table) × (filedup i t ≡ some t')
      × (get_elem? t' i ≡ some (record f { ref = f.ref + 1 }))
      × (fileclose i t' ≡ some (still_open, t))
unfolding filedup fileclose
fileclose-filedup i f t at used =
    let more : File → File = λ f. record f { ref = f.ref + 1 } in
    let at' = get_elem?-modify_self t i more at in
    let is_open : f.ref == 0 ≡ false = ground arith in
    let less : f.ref + 1 - 1 ≡ f.ref = omega arith in
    let back : record f { ref = f.ref + 1 - 1 } ≡ f = ap (λ n. record f { ref = n }) less in
    let shared : f.ref + 1 == 0 ≡ false = ground arith in
    let shared' : f.ref + 1 == 1 ≡ false = ground arith in
    (
      modify t i more,
      rw (at, filedup) (rw (is_open) refl),
      at',
      rw (at', fileclose)
          (rw (shared, shared')
            (ap (λ l. some (still_open, l))
              (modify_undo t i more (λ g. record g { ref = g.ref - 1 }) f at back))),
    )
