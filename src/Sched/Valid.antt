-- ===== src/Sched/Valid.antt =====
-- The invariant of the process table: `nice` values index the table of weights, and process
-- identifiers are not shared.
use os.Base.{
  ℕ, zero, suc, ◌+◌, ◌%◌, ◌^◌, subst, ◌≤◌, ◌<◌, ◌≡◌, ◌≢◌, refl, ◌⊎◌, inl, inr, Option, List, [],
  ◌∷◌, map, arith, modify, All, All-modify, All-map,
}
use os.Sched.Defs.{Proc, System, u32}
use os.Sched.Ops.{fresh_proc}

-- The identifier is that of no process of the list, or is 0, which marks a free slot.
abbrev pub Unshared : ℕ → List Proc → Type 0
Unshared n ps = (n ≡ 0) ⊎ All (λ q. q.pid ≢ n) ps

abbrev pub Distinct : List Proc → Type 0
Distinct [] = Unit
Distinct (p ∷ ps) = Unshared p.pid ps × Distinct ps

abbrev pub IsOk : ℕ → Proc → Type 0
IsOk next p = (p.nice ≤ 39) × (p.pid < next)

pub record IsValid (s : System) : Type 0 where
  pub each : All (IsOk s.next_pid) s.procs
  pub distinct : Distinct s.procs

-- A change of one entry that keeps its identifier or gives it up.
abbrev Keeps : (Proc → Proc) → Type 0
Keeps f = (p : Proc) → ((f p).pid ≡ p.pid) ⊎ ((f p).pid ≡ 0)

pub record IsTame (f : Proc → Proc) : Type 0 where
  pub nice_kept : (p : Proc) → p.nice ≤ 39 → (f p).nice ≤ 39
  pub pid_kept : Keeps f

module _ {f : Proc → Proc} (t : IsTame f) where
  tame-IsOk : (next : ℕ) (p : Proc) → IsOk next p → IsOk next (f p)
  tame-IsOk next p h = elim (t.pid_kept p) [
    | inl e ↦ (t.nice_kept p h.0, omega arith)
    | inr e ↦ (t.nice_kept p h.0, omega arith)
  ]

  Unshared-modify : (n : ℕ) (ps : List Proc) (i : ℕ) → Unshared n ps → Unshared n (modify ps i f)
  Unshared-modify n ps i (inl z) = inl z
  Unshared-modify zero ps i (inr a) = inl refl
  Unshared-modify (suc n) ps i (inr a) = inr (
      All-modify (λ q. q.pid ≢ suc n) ps i f
        (λ p ne. elim (t.pid_kept p) [ inl e ↦ omega arith | inr e ↦ omega arith ]) a)

  Unshared-head : (p : Proc) (ps : List Proc) → Unshared p.pid ps → Unshared (f p).pid ps
  Unshared-head p ps u = elim (t.pid_kept p) [ inl e ↦ rw e u | inr e ↦ inl e ]

  Distinct-modify : (ps : List Proc) (i : ℕ) → Distinct ps → Distinct (modify ps i f)
  Distinct-modify [] i d = tt
  Distinct-modify (p ∷ ps) zero d = (Unshared-head p ps d.0, d.1)
  Distinct-modify (p ∷ ps) (suc i) d = (Unshared-modify p.pid ps i d.0, Distinct-modify ps i d.1)

  Unshared-map : (n : ℕ) (ps : List Proc) → Unshared n ps → Unshared n (map f ps)
  Unshared-map n ps (inl z) = inl z
  Unshared-map zero ps (inr a) = inl refl
  Unshared-map (suc n) ps (inr a) = inr (
      All-map (λ q. q.pid ≢ suc n) ps f
        (λ p ne. elim (t.pid_kept p) [ inl e ↦ omega arith | inr e ↦ omega arith ]) a)

  Distinct-map : (ps : List Proc) → Distinct ps → Distinct (map f ps)
  Distinct-map [] d = tt
  Distinct-map (p ∷ ps) d =
      (Unshared-head p (map f ps) (Unshared-map p.pid ps d.0), Distinct-map ps d.1)

  pub modify-IsValid :
      (s : System) (i : ℕ) (c : Option ℕ)
      → IsValid s
      → IsValid (record s { procs = modify s.procs i f; current = c })
  modify-IsValid s i c v = record {
    each = All-modify (IsOk s.next_pid) s.procs i f (tame-IsOk s.next_pid) v.each;
    distinct = Distinct-modify s.procs i v.distinct;
  }

  pub map-IsValid : (s : System) → IsValid s → IsValid (record s { procs = map f s.procs })
  map-IsValid s v = record {
    each = All-map (IsOk s.next_pid) s.procs f (tame-IsOk s.next_pid) v.each;
    distinct = Distinct-map s.procs v.distinct;
  }

-- A change of neither field.
pub plain :
    (f : Proc → Proc) → ((p : Proc) → ((f p).nice ≡ p.nice) × ((f p).pid ≡ p.pid)) → IsTame f
plain f h = record { nice_kept = λ p n. omega (arith, h p); pid_kept = λ p. inl ((h p).1) }

-- The fresh identifier is larger than all that are in use.
module _ (next : ℕ) where
  IsOk-later : (p : Proc) → IsOk next p → IsOk (next + 1) p
  IsOk-later p h = omega arith

  All-IsOk-later : (ps : List Proc) → All (IsOk next) ps → All (IsOk (next + 1)) ps
  All-IsOk-later [] a = tt
  All-IsOk-later (p ∷ ps) a = (IsOk-later p a.0, All-IsOk-later ps a.1)

  All-IsOk-fresh :
      (ps : List Proc) (i : ℕ)
      → All (IsOk next) ps
      → All (IsOk (next + 1)) (modify ps i (fresh_proc next))
  All-IsOk-fresh [] i a = tt
  All-IsOk-fresh (p ∷ ps) zero a = (omega arith, All-IsOk-later ps a.1)
  All-IsOk-fresh (p ∷ ps) (suc i) a = (IsOk-later p a.0, All-IsOk-fresh ps i a.1)

  All-ne_fresh : (ps : List Proc) → All (IsOk next) ps → All (λ q. q.pid ≢ next) ps
  All-ne_fresh [] a = tt
  All-ne_fresh (p ∷ ps) a = (omega arith, All-ne_fresh ps a.1)

  Unshared-fresh :
      (n : ℕ) (ps : List Proc) (i : ℕ)
      → n < next
      → Unshared n ps
      → Unshared n (modify ps i (fresh_proc next))
  Unshared-fresh n ps i h (inl z) = inl z
  Unshared-fresh n ps i h (inr a) =
      inr (All-modify (λ q. q.pid ≢ n) ps i (fresh_proc next) (λ p ne. omega arith) a)

  Distinct-fresh :
      (ps : List Proc) (i : ℕ)
      → All (IsOk next) ps
      → Distinct ps
      → Distinct (modify ps i (fresh_proc next))
  Distinct-fresh [] i a d = tt
  Distinct-fresh (p ∷ ps) zero a d = (inr (All-ne_fresh ps a.1), d.1)
  Distinct-fresh (p ∷ ps) (suc i) a d =
      (Unshared-fresh p.pid ps i (a.0.1) d.0, Distinct-fresh ps i a.1 d.1)

-- What `allocproc` does under the lock keeps the invariant, if `nextpid` does not overflow.
pub fresh-IsValid :
    (s : System) (i : ℕ)
    → IsValid s
    → s.next_pid + 1 < 2 ^ 31
    → IsValid (record s {
      procs = modify s.procs i (fresh_proc s.next_pid);
      next_pid = (s.next_pid + 1) % u32;
    })
fresh-IsValid s i v room =
    subst
      (λ n. IsValid (record s { procs = modify s.procs i (fresh_proc s.next_pid); next_pid = n }))
      (no_wrap s.next_pid room)
      (record {
        each = All-IsOk-fresh s.next_pid s.procs i v.each;
        distinct = Distinct-fresh s.next_pid s.procs i v.each v.distinct;
      })
  where
    no_wrap : (n : ℕ) → n + 1 < 2 ^ 31 → n + 1 ≡ (n + 1) % u32
    no_wrap n h = omega arith
