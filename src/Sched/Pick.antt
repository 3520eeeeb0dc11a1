-- ===== src/Sched/Pick.antt =====
-- The search of `scheduler` for the process with the least virtual runtime.
use os.Base.{
  ℕ, suc, ◌+◌, ◌-◌, ◌≤◌, ◌<◌, ◌≡◌, refl, subst, ◌⊎◌, inl, inr, true, ◌&&◌, Option, none, some, List,
  [], ◌∷◌, arith, ltb, get_elem?, take, All, Bool-cases,
}
use os.Sched.Defs.{Proc, is_runnable, u32}
use os.Sched.Ops.{min_scan, pick_next}

-- If runnable, a process has run for at least `v`; for more than `v`.
abbrev pub AtLeast : ℕ → Proc → Type 0
AtLeast v q = is_runnable q.state ≡ true → v ≤ q.vruntime

abbrev pub Above : ℕ → Proc → Type 0
Above v q = is_runnable q.state ≡ true → v < q.vruntime

-- The entry `k` is the first runnable one of least `vruntime`, and that is below `least`.
pub record Chosen (ps : List Proc) (least k : ℕ) : Type 0 where
  pub proc : Proc
  pub entry : get_elem? ps k ≡ some proc
  pub ready : is_runnable proc.state ≡ true
  pub below : proc.vruntime < least
  pub minimal : All (AtLeast proc.vruntime) ps
  pub first : All (Above proc.vruntime) (take k ps)

All-AtLeast_mono : (ps : List Proc) (v w : ℕ) → v ≤ w → All (AtLeast w) ps → All (AtLeast v) ps
All-AtLeast_mono [] v w h a = tt
All-AtLeast_mono (p ∷ ps) v w h a = ((λ r. omega (arith, a.0 r)), All-AtLeast_mono ps v w h a.1)

module _ (ps : List Proc) (p : Proc) (least k : ℕ) where
  -- The head was taken, and a later entry replaced it.
  Chosen-take : p.vruntime ≤ least → Chosen ps p.vruntime k → Chosen (p ∷ ps) least (suc k)
  Chosen-take h c = record {
    proc = c.proc;
    entry = c.entry;
    ready = c.ready;
    below = omega (arith, c.below);
    minimal = ((λ r. omega (arith, c.below)), c.minimal);
    first = ((λ r. c.below), c.first);
  }

  -- The head was passed over.
  Chosen-skip : Above least p ⊎ AtLeast least p → Chosen ps least k → Chosen (p ∷ ps) least (suc k)
  Chosen-skip h c = record {
    proc = c.proc;
    entry = c.entry;
    ready = c.ready;
    below = c.below;
    minimal = (late, c.minimal);
    first = (later, c.first);
  }
    where
      later : Above c.proc.vruntime p
      later r = elim h [ inl a ↦ omega (arith, a r, c.below) | inr a ↦ omega (arith, a r, c.below) ]

      late : AtLeast c.proc.vruntime p
      late r = omega (arith, later r)

abbrev Outcome : List Proc → ℕ → ℕ → Option ℕ → Option ℕ → Type 0
Outcome ps i least best r =
    ((r ≡ best) × All (AtLeast least) ps) ⊎ ((k : ℕ) × (r ≡ some (i + k)) × Chosen ps least k)

shift_index : (i k : ℕ) {r : Option ℕ} → r ≡ some (suc i + k) → r ≡ some (i + suc k)
shift_index i k e = ground arith

min_scan-Outcome :
    (ps : List Proc) (i least : ℕ) (best : Option ℕ)
    → Outcome ps i least best (min_scan ps i least best)
unfolding min_scan
min_scan-Outcome [] i least best = inl (refl, tt)
min_scan-Outcome (p ∷ ps) i least best =
    elim (Bool-cases (is_runnable p.state && ltb p.vruntime least)) [
      | inl hit ↦ rw hit (elim (min_scan-Outcome ps (suc i) p.vruntime (some i)) [
        | inl (e, least_left) ↦ inr (
          0,
          ground arith,
          record {
            proc = p;
            entry = refl;
            ready = ground arith;
            below = ground arith;
            minimal = ((λ r. omega arith), least_left);
            first = tt;
          },
        )
        | inr (k, e, c) ↦ inr (suc k, shift_index i k e, Chosen-take ps p least k (ground arith) c)
      ])
      | inr miss ↦ rw miss (elim (min_scan-Outcome ps (suc i) least best) [
        | inl (e, least_left) ↦ inl (e, ((λ r. ground arith), least_left))
        | inr (k, e, c) ↦
            inr (suc k, shift_index i k e, Chosen-skip ps p least k (inr (λ r. ground arith)) c)
      ])
    ]

-- The process that a round of the scheduler chooses is runnable, no runnable process has a smaller
-- virtual runtime, and each runnable one in an earlier slot has a larger one.
pub pick_next-Chosen : (ps : List Proc) (i : ℕ) → pick_next ps ≡ some i → Chosen ps (u32 - 1) i
unfolding pick_next
pick_next-Chosen ps i h = elim (min_scan-Outcome ps 0 (u32 - 1) none) [
  | inl (e, a) ↦ cc
  | inr (k, e, c) ↦ subst (Chosen ps (u32 - 1)) (ground arith) c
]

-- None is chosen only if every runnable process has the largest word as its virtual runtime.
pub pick_next-none : (ps : List Proc) → pick_next ps ≡ none → All (AtLeast (u32 - 1)) ps
unfolding pick_next
pick_next-none ps h = elim (min_scan-Outcome ps 0 (u32 - 1) none) [
  | inl (e, a) ↦ a
  | inr (k, e, c) ↦ cc
]
