-- ===== src/Sched/Slices.antt =====
-- What a round of `scheduler` does with the process that it chooses, and how time is charged.
use os.Base.{
  ℕ, zero, suc, ◌+◌, ◌-◌, ◌*◌, ◌/◌, ◌^◌, ◌≤◌, ◌<◌, ◌≡◌, ap, subst, ◌∙◌, inl, inr, true, false, none,
  some, List, [], ◌∷◌, arith, ◌==◌, get_elem?, length, All, All-get, get_elem?-modify_self,
  Option-cases, Bool-cases,
}
use os.Sched.Defs.{Proc, System, running, is_runnable, weight, u32}
use os.Sched.Ops.{total_weight, pick_next, slice_of, schedule}
use os.Sched.Timer.{charge}
use os.Sched.Weights.{weight_bounds, weight_antitone}
use os.Sched.Valid.{IsOk, IsValid}
use os.Sched.Pick.{AtLeast, Chosen, pick_next-Chosen, pick_next-none}

-- One runnable process with a weight of the table makes the total positive.
weight-le-total :
    (next : ℕ) (ps : List Proc) (j : ℕ) (q : Proc)
    → All (IsOk next) ps
    → get_elem? ps j ≡ some q
    → is_runnable q.state ≡ true
    → weight q.nice ≤ total_weight ps
unfolding total_weight
weight-le-total next [] j q a e r = cc
weight-le-total next (p ∷ ps) zero q a e r = ground arith
weight-le-total next (p ∷ ps) (suc j) q a e r = elim (Bool-cases (is_runnable p.state)) [
  | inl z ↦ rw z (omega (arith, weight-le-total next ps j q a.1 e r))
  | inr z ↦ rw z (weight-le-total next ps j q a.1 e r)
]

total-le : (next : ℕ) (ps : List Proc) → All (IsOk next) ps → total_weight ps ≤ 88761 * length ps
unfolding total_weight
total-le next [] a = omega arith
total-le next (p ∷ ps) a = elim (Bool-cases (is_runnable p.state)) [
  | inl z ↦ rw z (omega (arith, total-le next ps a.1, weight_bounds p.nice a.0.0))
  | inr z ↦ rw z (omega (arith, total-le next ps a.1))
]

div-mul_bounds : (x t : ℕ) → 0 < t → (x / t * t ≤ x) × (x < x / t * t + t)
div-mul_bounds x t h = omega arith

one-le_div : (x t : ℕ) → 0 < t → t ≤ x → 1 ≤ x / t
one-le_div x t h k = grind arith

div-le : (x t k : ℕ) → 0 < t → x < suc k * t → x / t ≤ k
div-le x t k h l = grind arith

-- Dividing by more gives no more.
div_antitone : (x a b : ℕ) → 0 < b → b ≤ a → x / a ≤ x / b
div_antitone x a b h k = grind arith

div-le_self : (x t : ℕ) → x / t ≤ x
div-le_self x t = grind arith

rejoin : (a b : ℕ) → a ≤ b → a + (b - a) ≡ b
rejoin a b h = omega arith

-- The slice is the share of 10 * 1000 ticks that the weight has in the total, rounded up.
pub slice_of_bounds :
    (w total : ℕ)
    → 0 < w
    → w ≤ total
    → (10 * 1000 * w ≤ slice_of w total * total)
      × (slice_of w total * total < 10 * 1000 * w + total)
      × (1 ≤ slice_of w total)
      × (slice_of w total ≤ 10 * 1000)
unfolding slice_of
slice_of_bounds w total pw h = (
  omega (arith, div-mul_bounds (10 * 1000 * w + total - 1) total),
  omega (arith, div-mul_bounds (10 * 1000 * w + total - 1) total),
  one-le_div _ total (omega arith) (omega arith),
  div-le _ total 10000 (omega arith) (omega arith),
)

-- No intermediate result leaves the range of `int`, in a table of at most 64 processes.
pub slice_fits :
    (s : System) (n : ℕ)
    → IsValid s
    → length s.procs ≤ 64
    → n ≤ 39
    → 10 * 1000 * weight n + total_weight s.procs < 2 ^ 31
slice_fits s n v few h = omega (arith, total-le s.next_pid s.procs v.each, weight_bounds n h)

-- What a round makes of the entry it chooses.
abbrev pub dispatched : ℕ → Proc → Proc
dispatched total p = record p { time_slice = slice_of (weight p.nice) total; state = running }

-- A round that dispatches a process takes the first runnable one of least virtual runtime, marks it
-- as running and gives it the slice of its weight.
pub schedule_lem :
    (s : System) (i : ℕ)
    → (schedule s).current ≡ some i
    → (c : Chosen s.procs (u32 - 1) i) × (get_elem? (schedule s).procs i
        ≡ some (dispatched (total_weight s.procs) c.proc))
unfolding schedule
schedule_lem s i h = elim (Bool-cases (total_weight s.procs == 0)) [
  | inl z ↦ absurd (no_round z)
  | inr z ↦ elim (Option-cases (pick_next s.procs)) [
    | inl e ↦ absurd (nothing z e)
    | inr (k, e) ↦ at k (picked z k e) z e
  ]
]
  where
    no_round : (total_weight s.procs == 0) ≡ true → ⊥
    no_round z = ground arith

    nothing : (total_weight s.procs == 0) ≡ false → pick_next s.procs ≡ none → ⊥
    nothing z e = ground arith

    picked : (total_weight s.procs == 0) ≡ false → (k : ℕ) → pick_next s.procs ≡ some k → k ≡ i
    picked z k e = ground arith

    at :
        (k : ℕ)
        → k ≡ i
        → (total_weight s.procs == 0) ≡ false
        → pick_next s.procs ≡ some k
        → (c : Chosen s.procs (u32 - 1) i) × (get_elem? (schedule s).procs i
            ≡ some (dispatched (total_weight s.procs) c.proc))
    at k same z e =
        let c = pick_next-Chosen s.procs i (e ∙ ap some same) in
        (c, rw (z, e, schedule) (rw same (get_elem?-modify_self s.procs i _ c.entry)))

-- As long as some process is runnable and its virtual runtime is not the largest word, a round
-- dispatches a process.
pub schedule_progress :
    (s : System) (j : ℕ) (q : Proc)
    → IsValid s
    → get_elem? s.procs j ≡ some q
    → is_runnable q.state ≡ true
    → q.vruntime < u32 - 1
    → (i : ℕ) × ((schedule s).current ≡ some i)
unfolding schedule
schedule_progress s j q v e r small = elim (Option-cases (pick_next s.procs)) [
  | inl f ↦
      absurd (omega (arith, All-get (AtLeast (u32 - 1)) s.procs j q e (pick_next-none s.procs f) r))
  | inr (k, f) ↦ (k, rw (busy, f, schedule))
]
  where
    busy : (total_weight s.procs == 0) ≡ false
    busy = ground (
      arith,
      weight-le-total s.next_pid s.procs j q v.each e r,
      weight_bounds q.nice (All-get (IsOk s.next_pid) s.procs j q e v.each).0,
    )

-- A tick never advances the virtual runtime of a process with a lower `nice` value further.
pub charge_antitone :
    (p q : Proc)
    → p.nice ≤ q.nice
    → q.nice ≤ 39
    → p.vruntime ≡ q.vruntime
    → p.vruntime + 1000 * 1024 < u32
    → (charge p).vruntime ≤ (charge q).vruntime
unfolding charge
charge_antitone p q h k e small =
    rw (exact p small, exact q (omega arith))
      (omega (arith, div_antitone 1024000 (weight p.nice) (weight q.nice) lighter.0 lighter.1))
  where
    within : (x : Proc) → 1024000 / weight x.nice ≤ 1024000
    within x = div-le_self 1024000 (weight x.nice)

    exact :
        (x : Proc)
        → x.vruntime + 1000 * 1024 < u32
        → (charge x).vruntime ≡ x.vruntime + 1024000 / weight x.nice
    exact x h = omega (arith, within x)

    lighter : (0 < weight q.nice) × (weight q.nice ≤ weight p.nice)
    lighter = omega (
      arith,
      weight_bounds q.nice k,
      subst (λ n. weight n ≤ weight p.nice) (rejoin p.nice q.nice h)
          (weight_antitone (q.nice - p.nice) p.nice (omega arith)),
    )
