-- ===== src/Syscall/Descriptors.antt =====
-- `sys_dup` and `sys_close` of xv6-public/sysfile.c over the table of open files.
use os.Base.{
  ℕ, zero, suc, ◌+◌, ◌-◌, ◌≤◌, ◌<◌, ◌≡◌, ◌≢◌, refl, sym, ap, ◌∙◌, subst, pos, Option, none, some,
  List, [], ◌∷◌, get_elem?, length, set, get_elem?-set_self, lt-length_of_some, arith,
}
use os.Files.Defs.{File, still_open}
use os.Files.References.{fileclose-filedup}
use os.Syscall.Defs.{
  fetchint, Proc, Sys, nofile, argint, argfd, find_unused, fdalloc, sys_dup, sys_close,
}
use os.Syscall.Requests.{IsDescriptor, Described, argfd-Described}

-- The entry that `fdalloc` finds: the first that is empty.
abbrev pub Unused : ℕ → List (Option ℕ) → Option ℕ → Type 0
Unused k fs none = (i : ℕ) → get_elem? fs i ≢ some none
Unused k fs (some fd) =
    (k ≤ fd)
    × (get_elem? fs (fd - k) ≡ some none)
    × ((i : ℕ) → i < fd - k → get_elem? fs i ≢ some none)

pub find_unused-Unused : (k : ℕ) (fs : List (Option ℕ)) → Unused k fs (find_unused k fs)
unfolding find_unused
find_unused-Unused k [] = λ i e. cc
find_unused-Unused k (none ∷ fs) =
    (omega arith, ap (get_elem? (none ∷ fs)) (minus_self k), λ i h. absurd (nothing k i h))
  where
    minus_self : (k : ℕ) → k - k ≡ 0
    minus_self k = omega arith

    nothing : (k i : ℕ) → i < k - k → ⊥
    nothing k i h = omega arith
find_unused-Unused k (some f ∷ fs) = later (find_unused (k + 1) fs) (find_unused-Unused (k + 1) fs)
  where
    next : (k fd : ℕ) → k + 1 ≤ fd → fd - k ≡ suc (fd - (k + 1))
    next k fd h = omega arith

    after : ((i : ℕ) → get_elem? fs i ≢ some none) → (i : ℕ) → get_elem? (some f ∷ fs) i ≢ some none
    after rest zero e = cc
    after rest (suc i) e = rest i e

    after_below :
        (fd : ℕ)
        → ((i : ℕ) → i < fd - (k + 1) → get_elem? fs i ≢ some none)
        → (i : ℕ) → i < suc (fd - (k + 1))
        → get_elem? (some f ∷ fs) i ≢ some none
    after_below fd before zero h e = cc
    after_below fd before (suc i) h e = before i (omega arith) e

    later : (o : Option ℕ) → Unused (k + 1) fs o → Unused k (some f ∷ fs) o
    later none rest = after rest
    later (some fd) (low, at, before) = (
      omega arith,
      ap (get_elem? (some f ∷ fs)) (next k fd low) ∙ at,
      λ i h. after_below fd before i (omega arith),
    )

-- A process whose memory user code has changed.
abbrev pub with_memory : (ℕ → ℕ) → Sys → Sys
with_memory memory s = record s { proc = record s.proc { memory = memory } }

set_undo :
    (fs : List (Option ℕ)) (fd : ℕ) (f : Option ℕ)
    → get_elem? fs fd ≡ some none
    → set (set fs fd f) fd none ≡ fs
set_undo [] fd f e = refl
set_undo (x ∷ fs) zero f e = cc
set_undo (x ∷ fs) (suc fd) f e = ap (λ l. x ∷ l) (set_undo fs fd f e)

argfd_of-IsDescriptor : (n fd f : ℕ) (p : Proc) → IsDescriptor n p fd f → argfd n p ≡ some (fd, f)
argfd_of-IsDescriptor n fd f p d = found (argfd n p) refl
  where
    same : {x y : ℕ} → some x ≡ some y → x ≡ y
    same e = cc

    same_file : {x y : ℕ} → some (some x) ≡ some (some y) → x ≡ y
    same_file e = cc

    both : {i g : ℕ} → i ≡ fd → g ≡ f → ◌≡◌ {A = Option (ℕ × ℕ)} (some (i, g)) (some (fd, f))
    both e e' = cc

    agree : (i g : ℕ) → IsDescriptor n p i g → ◌≡◌ {A = Option (ℕ × ℕ)} (some (i, g)) (some (fd, f))
    agree i g (at, _, open_at) =
        let (at', _, open_at') = d in
        let here : i ≡ fd = same (sym at ∙ at') in
        let there : g ≡ f =
          same_file (
            sym open_at ∙ (subst (λ k. get_elem? p.ofile k ≡ some (some f)) (sym here) open_at')) in
        both here there

    found : (o : Option (ℕ × ℕ)) → argfd n p ≡ o → argfd n p ≡ some (fd, f)
    found none e = absurd (subst (Described n p) e (argfd-Described n p) fd f d)
    found (some (i, g)) e = e ∙ agree i g (subst (Described n p) e (argfd-Described n p))

argint_of_ofile :
    (n : ℕ) (p : Proc) (l : List (Option ℕ)) → argint n (record p { ofile = l }) ≡ argint n p
unfolding argint fetchint
argint_of_ofile n p l = refl

-- The lowest empty entry is the one that is found.
find_unused_lem :
    (fs : List (Option ℕ)) (fd : ℕ)
    → get_elem? fs fd ≡ some none
    → ((i : ℕ) → i < fd → get_elem? fs i ≢ some none)
    → find_unused 0 fs ≡ some fd
find_unused_lem fs fd empty least = found (find_unused 0 fs) (find_unused-Unused 0 fs)
  where
    minus_zero : (n : ℕ) → n - 0 ≡ n
    minus_zero n = omega arith

    no_less : (a b : ℕ) → (a < b → ⊥) → (b < a → ⊥) → a ≡ b
    no_less a b h k = omega (arith, h, k)

    found : (o : Option ℕ) → Unused 0 fs o → o ≡ some fd
    found none nowhere = absurd (nowhere fd empty)
    found (some k) (_, at, before) = ap some (
        no_less k fd (λ h. least k h (ap (get_elem? fs) (sym (minus_zero k)) ∙ at))
          (λ h. before fd (subst (λ n. fd < n) (sym (minus_zero k)) h) empty))

-- `sys_dup` of an open file, with NOFILE descriptors of which fd' is the lowest unused one, returns
-- fd', which then names the file with one reference more; and `sys_close` of it, after any change of
-- its memory by the user that leaves fd' as the argument, brings back all descriptors and references.
pub sys_close-sys_dup :
    (s : Sys) (fd f fd' : ℕ) (file : File) (memory : ℕ → ℕ)
    → IsDescriptor 0 s.proc fd f
    → length s.proc.ofile ≡ nofile
    → get_elem? s.proc.ofile fd' ≡ some none
    → ((i : ℕ) → i < fd' → get_elem? s.proc.ofile i ≢ some none)
    → get_elem? s.files f ≡ some file
    → file.ref ≢ 0
    → argint 0 (record s.proc { memory = memory }) ≡ some fd'
    → (s' : Sys) × (sys_dup s ≡ some (pos fd', s'))
      × (get_elem? s'.proc.ofile fd' ≡ some (some f))
      × (get_elem? s'.files f ≡ some (record file { ref = file.ref + 1 }))
      × (sys_close (with_memory memory s') ≡ some (pos 0, some still_open, with_memory memory s))
unfolding sys_dup sys_close fdalloc
sys_close-sys_dup s fd f fd' file memory d size empty' least at used arg =
    let given : argfd 0 s.proc ≡ some (fd, f) = argfd_of-IsDescriptor 0 fd f s.proc d in
    let free : find_unused 0 s.proc.ofile ≡ some fd' =
      find_unused_lem s.proc.ofile fd' empty' least in
    let inside : fd' < length s.proc.ofile = lt-length_of_some s.proc.ofile fd' empty' in
    let (t, more, counted, undone) = fileclose-filedup f file s.files at used in
    let p : Proc = record s.proc { ofile = set s.proc.ofile fd' (some f) } in
    let made : fdalloc f s.proc ≡ some (fd', p) = rw (free, fdalloc) refl in
    let put : get_elem? p.ofile fd' ≡ some (some f) =
      get_elem?-set_self s.proc.ofile fd' (some f) inside in
    let again : argfd 0 (record p { memory = memory }) ≡ some (fd', f) =
      argfd_of-IsDescriptor 0 fd' f (record p { memory = memory })
        (
          argint_of_ofile 0 (record s.proc { memory = memory }) p.ofile ∙ arg,
          subst (λ n. fd' < n) size inside,
          put,
        ) in
    (
      record { proc = p; files = t },
      rw (given, made, more, sys_dup) refl,
      put,
      counted,
      rw (again, undone, sys_close)
          (ap
            (λ l. some (
              pos 0,
              some still_open,
              record { proc = record p { ofile = l; memory = memory }; files = s.files },
            ))
            (set_undo s.proc.ofile fd' (some f) empty')),
    )
