-- ===== src/Syscall/Strings.antt =====
-- The strings that system calls take, xv6-public/syscall.c.
use os.Base.{
  ℕ, zero, suc, ◌+◌, ◌-◌, ◌≤◌, ◌<◌, ◌≡◌, ◌≢◌, refl, sym, ap, ◌∙◌, subst, ◌⊎◌, inl, inr, Bool, true,
  false, Option, none, some, ◌==◌, leb, Bool-cases, Option-cases, ==_iff, arith,
}
use os.Syscall.Defs.{Proc, scan_string, fetchstr, argint, argstr}

-- The string of an accepted pointer.
abbrev pub IsString : (ℕ → ℕ) → ℕ → ℕ → Type 0
IsString memory a n = (memory (a + n) ≡ 0) × ((j : ℕ) → j < n → memory (a + j) ≢ 0)

abbrev pub Scanned : ℕ → ℕ → ℕ → (ℕ → ℕ) → Option ℕ → Type 0
Scanned k s n memory none = (j : ℕ) → j < k → memory (s + j) ≢ 0
Scanned k s n memory (some m) = (n ≤ m) × (m - n < k) × IsString memory s (m - n)

scan_string-Scanned : (k s n : ℕ) (memory : ℕ → ℕ) → Scanned k s n memory (scan_string k s n memory)
unfolding scan_string
scan_string-Scanned zero s n memory = λ j h. absurd (omega arith)
scan_string-Scanned (suc k) s n memory =
    let rest = scan_string-Scanned k (s + 1) (n + 1) memory in
    elim (Bool-cases (memory s == 0)) [
      | inl z ↦
          let e : scan_string (suc k) s n memory ≡ some n = rw (z, scan_string) refl in
          subst (Scanned (suc k) s n memory) (sym e) (
            omega arith,
            omega arith,
            (ap memory (plus_zero n s) ∙ (==_iff (memory s) 0).0 z, λ j h. absurd (nothing n j h)),
          )
      | inr z ↦
          let e : scan_string (suc k) s n memory ≡ scan_string k (s + 1) (n + 1) memory =
            rw (z, scan_string) refl in
          subst (Scanned (suc k) s n memory) (sym e) (
            later (scan_string k (s + 1) (n + 1) memory)
              (λ q. true_false ((==_iff (memory s) 0).1 q) z) rest)
    ]
  where
    earlier :
        (m : ℕ)
        → n + 1 ≤ m
        → memory s ≢ 0
        → ((j : ℕ) → j < m - (n + 1) → memory (s + 1 + j) ≢ 0)
        → (j : ℕ) → j < m - n
        → memory (s + j) ≢ 0
    earlier m low nonzero before zero h = subst (λ a. memory a ≢ 0) (omega arith) nonzero
    earlier m low nonzero before (suc j) h =
        subst (λ a. memory a ≢ 0) (omega arith) (before j (omega arith))

    clear :
        memory s ≢ 0
        → ((j : ℕ) → j < k → memory (s + 1 + j) ≢ 0)
        → (j : ℕ) → j < suc k
        → memory (s + j) ≢ 0
    clear nonzero rest zero h = subst (λ a. memory a ≢ 0) (omega arith) nonzero
    clear nonzero rest (suc j) h = subst (λ a. memory a ≢ 0) (omega arith) (rest j (omega arith))

    later :
        (o : Option ℕ)
        → memory s ≢ 0
        → Scanned k (s + 1) (n + 1) memory o
        → Scanned (suc k) s n memory o
    later none nonzero rest = clear nonzero rest
    later (some m) nonzero (low, high, (nul, before)) =
        (omega arith, omega arith, (ap memory (omega arith) ∙ nul, earlier m low nonzero before))

    nothing : (n j : ℕ) → j < n - n → ⊥
    nothing n j h = omega arith

    plus_zero : (n s : ℕ) → s + (n - n) ≡ s
    plus_zero n s = omega arith

    true_false : {b : Bool} → b ≡ true → b ≡ false → ⊥
    true_false e e' = cc

-- How `fetchstr` ends.
abbrev pub FetchedString : ℕ → Proc → Option (ℕ × ℕ) → Type 0
FetchedString addr p none = (j : ℕ) → addr + j < p.sz → p.memory (addr + j) ≢ 0
FetchedString addr p (some (a, n)) = (a ≡ addr) × (a + n < p.sz) × IsString p.memory a n

pub fetchstr-FetchedString : (addr : ℕ) (p : Proc) → FetchedString addr p (fetchstr addr p)
unfolding fetchstr
fetchstr-FetchedString addr p = elim (Bool-cases (leb p.sz addr)) [
  | inl z ↦
      let e : fetchstr addr p ≡ none = rw (z, fetchstr) refl in
      subst (FetchedString addr p) (sym e) (λ j h. absurd (outside p.sz j z h))
  | inr z ↦
      let e : fetchstr addr p ≡ string_of (scan_string (p.sz - addr) addr 0 p.memory) =
        rw (z, fetchstr) refl in
      subst (FetchedString addr p) (sym e) (
        ends (scan_string (p.sz - addr) addr 0 p.memory) z
          (scan_string-Scanned (p.sz - addr) addr 0 p.memory))
]
  where
    string_of : Option ℕ → Option (ℕ × ℕ)
    string_of o = elim o [ none ↦ none | some n ↦ some (addr, n) ]

    outside : (sz j : ℕ) → leb sz addr ≡ true → addr + j < sz → ⊥
    outside sz j z h = ground arith

    minus_zero : (m : ℕ) → m - 0 ≡ m
    minus_zero m = omega arith

    shorter : (sz m : ℕ) → leb sz addr ≡ false → m - 0 < sz - addr → addr + m < sz
    shorter sz m z h = ground arith

    inside : (sz j : ℕ) → addr + j < sz → j < sz - addr
    inside sz j h = omega arith

    ends :
        (o : Option ℕ)
        → leb p.sz addr ≡ false
        → Scanned (p.sz - addr) addr 0 p.memory o
        → FetchedString addr p (string_of o)
    ends none z scanned = λ j h. scanned j (inside p.sz j h)
    ends (some m) z (low, high, (nul, before)) =
        (refl, shorter p.sz m z high, subst (IsString p.memory addr) (minus_zero m) (nul, before))

-- `argstr` fails with `argint`. Otherwise it gives the address with the length up to the first
-- NUL, which is within the memory of the process, or fails if there is none up to its end.
pub argstr_lem :
    (n : ℕ) (p : Proc)
    → ((argint n p ≡ none) × (argstr n p ≡ none))
      ⊎ ((addr : ℕ) × (argint n p ≡ some addr) × FetchedString addr p (argstr n p))
unfolding argstr
argstr_lem n p = elim (Option-cases (argint n p)) [
  | inl z ↦ inl (z, rw (z, argstr) refl)
  | inr (addr, z) ↦
      let e : argstr n p ≡ fetchstr addr p = rw (z, argstr) refl in
      inr (addr, z, subst (FetchedString addr p) (sym e) (fetchstr-FetchedString addr p))
]
