-- ===== src/Syscall/Requests.antt =====
-- Descriptors, and the requests of `sys_read` and `sys_write` of xv6-public/sysfile.c.
use os.Base.{
  ℕ, ◌+◌, ◌≤◌, ◌<◌, ◌≡◌, ◌≢◌, refl, sym, ◌∙◌, subst, inl, inr, true, false, ◌||◌, Option, none,
  some, leb, get_elem?, Bool-cases, Option-cases, arith,
}
use os.Syscall.Defs.{is_negative, Proc, argint, argptr, argfd, io_request, nofile}
use os.Syscall.Args.{Fits, Points, argptr-Points}

-- A descriptor that `argfd` accepts.
abbrev pub IsDescriptor : ℕ → Proc → ℕ → ℕ → Type 0
IsDescriptor n p fd f =
    (argint n p ≡ some fd) × (fd < nofile) × (get_elem? p.ofile fd ≡ some (some f))

-- What `argfd` accepts is a descriptor of an open file, and it refuses every other argument.
abbrev pub Described : ℕ → Proc → Option (ℕ × ℕ) → Type 0
Described n p none = (fd f : ℕ) → IsDescriptor n p fd f → ⊥
Described n p (some (fd, f)) = IsDescriptor n p fd f

pub argfd-Described : (n : ℕ) (p : Proc) → Described n p (argfd n p)
unfolding argfd
argfd-Described n p = elim (Option-cases (argint n p)) [
  | inl z ↦
      let e : argfd n p ≡ none = rw (z, argfd) refl in
      subst (Described n p) (sym e) (λ fd f (at, _, _). none≢some (sym z ∙ at))
  | inr (i, z) ↦ elim (Bool-cases (is_negative i || leb nofile i)) [
    | inl y ↦
        let e : argfd n p ≡ none = rw (z, y, argfd) refl in
        subst (Described n p) (sym e)
          (λ fd f (at, low, _). refused i y (subst (λ k. k < nofile) (sym (same (sym z ∙ at))) low))
    | inr y ↦
        let e : argfd n p ≡ opened i (get_elem? p.ofile i) = rw (z, y, argfd) refl in
        subst (Described n p) (sym e) (found i z (accepted i y) (get_elem? p.ofile i) refl)
  ]
]
  where
    none≢some : {A : Type 0} {x : A} → none ≡ some x → ⊥
    none≢some e = cc

    same : {x y : ℕ} → some x ≡ some y → x ≡ y
    same e = cc

    refused : (i : ℕ) → is_negative i || leb nofile i ≡ true → i < nofile → ⊥
    refused i y h = ground arith

    accepted : (i : ℕ) → is_negative i || leb nofile i ≡ false → i < nofile
    accepted i y = ground arith

    opened : ℕ → Option (Option ℕ) → Option (ℕ × ℕ)
    opened i o = elim o [ some (some f) ↦ some (i, f) | _ ↦ none ]

    closed :
        (i fd f : ℕ) (o : Option (Option ℕ))
        → get_elem? p.ofile i ≡ o
        → o ≢ some (some f)
        → argint n p ≡ some i
        → IsDescriptor n p fd f
        → ⊥
    closed i fd f o e ne z (at, _, open_at) =
        ne (
          sym e
          ∙ subst (λ k. get_elem? p.ofile k ≡ some (some f)) (sym (same (sym z ∙ at))) open_at)

    found :
        (i : ℕ)
        → argint n p ≡ some i
        → i < nofile
        → (o : Option (Option ℕ)) → get_elem? p.ofile i ≡ o
        → Described n p (opened i o)
    found i z low none e = λ fd f d. closed i fd f none e (λ q. none≢some q) z d
    found i z low (some none) e =
        λ fd f d. closed i fd f (some none) e (λ q. none≢some (inner q)) z d
      where
        inner : {x y : Option ℕ} → some x ≡ some y → x ≡ y
        inner e = cc
    found i z low (some (some f)) e = (z, low, e)

-- What `sys_read` and `sys_write` hand on.
abbrev pub IsSafeRequest : Proc → Option (ℕ × ℕ × ℕ) → Type 0
IsSafeRequest p none = Unit
IsSafeRequest p (some (f, a, n)) =
    (a < p.sz)
    × (a + n ≤ p.sz)
    × ((fd : ℕ) × (fd < nofile) × (get_elem? p.ofile fd ≡ some (some f)))

-- In a process below KERNBASE, `sys_read` and `sys_write` go on only with an open file of the
-- process and a buffer within its memory.
pub io_request-IsSafeRequest : (p : Proc) → Fits p → IsSafeRequest p (io_request p)
unfolding io_request
io_request-IsSafeRequest p fits = of_file (argfd 0 p) (argfd-Described 0 p)
  where
    of_block :
        (fd f n : ℕ) (o : Option ℕ)
        → IsDescriptor 0 p fd f
        → Points 1 n p o
        → IsSafeRequest p (elim o [ none ↦ none | some a ↦ some (f, a, n) ])
    of_block fd f n none d points = tt
    of_block fd f n (some a) (_, low, at) (_, inside, fits) = (inside, fits, (fd, low, at))

    of_size :
        (fd f : ℕ) (o : Option ℕ)
        → IsDescriptor 0 p fd f
        → IsSafeRequest p (elim o [
          | none ↦ none
          | some n ↦ elim (argptr 1 n p) [ none ↦ none | some a ↦ some (f, a, n) ]
        ])
    of_size fd f none d = tt
    of_size fd f (some n) d = of_block fd f n (argptr 1 n p) d (argptr-Points 1 n p fits)

    of_file :
        (o : Option (ℕ × ℕ))
        → Described 0 p o
        → IsSafeRequest p (elim o [
          | none ↦ none
          | some (_, f) ↦ elim (argint 2 p) [
            | none ↦ none
            | some n ↦ elim (argptr 1 n p) [ none ↦ none | some a ↦ some (f, a, n) ]
          ]
        ])
    of_file none d = tt
    of_file (some (fd, f)) d = of_size fd f (argint 2 p) d
