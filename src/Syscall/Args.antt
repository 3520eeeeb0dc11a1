-- ===== src/Syscall/Args.antt =====
-- What an accepted argument of a system call points to, xv6-public/syscall.c.
use os.Base.{
  ℕ, ◌+◌, ◌%◌, ◌^◌, ◌≤◌, ◌<◌, ◌≡◌, refl, sym, subst, ◌⊎◌, inl, inr, true, false, ◌||◌, Option, none,
  some, ltb, leb, Bool-cases, Option-cases, arith,
}
use os.Syscall.Defs.{u32, is_negative, Proc, word_at, fetchint, argint, argptr}

-- KERNBASE, above which no process has memory.
abbrev pub kernbase : ℕ
kernbase = 2 ^ 31

abbrev pub Fits : Proc → Type 0
Fits p = p.sz ≤ kernbase

-- The word at an address, if all four bytes are in the memory of the process.
abbrev pub Fetched : ℕ → Proc → Option ℕ → Type 0
Fetched addr p none = p.sz < addr + 4
Fetched addr p (some w) = (addr + 4 ≤ p.sz) × (w ≡ word_at p.memory addr)

pub fetchint-Fetched :
    (addr : ℕ) (p : Proc) → Fits p → addr < u32 → Fetched addr p (fetchint addr p)
unfolding fetchint
fetchint-Fetched addr p fits small =
    elim (Bool-cases (leb p.sz addr || ltb p.sz ((addr + 4) % u32))) [
      | inl z ↦ rw (z) (ground arith)
      | inr z ↦ rw (z) (ground arith)
    ]

-- The pointer of an accepted block, and why one is refused.
abbrev pub Points : ℕ → ℕ → Proc → Option ℕ → Type 0
Points n size p none =
    (argint n p ≡ none)
    ⊎ ((i : ℕ) × (argint n p ≡ some i)
        × ((is_negative size ≡ true) ⊎ ((p.sz ≤ i) ⊎ (p.sz < i + size))))
Points n size p (some i) = (argint n p ≡ some i) × (i < p.sz) × (i + size ≤ p.sz)

-- In a process below KERNBASE, `argptr` accepts only blocks that begin and end within the memory
-- of the process, and refuses a pointer that it could fetch only if the size is negative or the
-- block is not such a one.
pub argptr-Points : (n size : ℕ) (p : Proc) → Fits p → Points n size p (argptr n size p)
unfolding argptr
argptr-Points n size p fits = elim (Option-cases (argint n p)) [
  | inl z ↦
      let e : argptr n size p ≡ none = rw (z, argptr) refl in
      subst (Points n size p) (sym e) (inl z)
  | inr (i, z) ↦ elim (Bool-cases (is_negative size || leb p.sz i || ltb p.sz ((i + size) % u32))) [
    | inl y ↦
        let e : argptr n size p ≡ none = rw (z, argptr, y) refl in
        subst (Points n size p) (sym e) (inr (i, z, refusal i p.sz size y))
    | inr y ↦
        let e : argptr n size p ≡ some i = rw (z, argptr, y) refl in
        let (low, high) = accepted i p.sz size fits y in
        subst (Points n size p) (sym e) (z, low, high)
  ]
]
  where
    refusal :
        (i sz size : ℕ)
        → (is_negative size || leb sz i || ltb sz ((i + size) % u32)) ≡ true
        → (is_negative size ≡ true) ⊎ ((sz ≤ i) ⊎ (sz < i + size))
    refusal i sz size y = ground arith

    accepted :
        (i sz size : ℕ)
        → sz ≤ kernbase
        → (is_negative size || leb sz i || ltb sz ((i + size) % u32)) ≡ false
        → (i < sz) × (i + size ≤ sz)
    accepted i sz size fits y = ground arith
