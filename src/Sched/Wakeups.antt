-- ===== src/Sched/Wakeups.antt =====
-- What `wakeup1`, `kill`, `setnice`, the timer and `exit` do to the processes.
use os.Base.{
  ℕ, ◌≤◌, ◌≡◌, refl, ap, ◌∙◌, inl, inr, Bool, true, false, ◌&&◌, some, List, [], ◌∷◌, map, arith,
  ltb, get_elem?, All, get_elem?-map, Bool-cases, if◌then◌else◌,
}
use os.Sched.Defs.{Proc, System, Chan, chan_eq, runnable, is_runnable, is_sleeping}
use os.Sched.Sleep.{last_runnable, min_runnable, wake_base, wake_one, wakeup1}
use os.Sched.Pick.{AtLeast}

-- No entry is asleep on the channel.
abbrev pub Awake : Chan → Proc → Type 0
Awake c p = (is_sleeping p.state && chan_eq p.chan c) ≡ false

wake_one-Awake : (base : ℕ) (c : Chan) (p : Proc) → Awake c (wake_one base c p)
unfolding wake_one
wake_one-Awake base c p = elim (Bool-cases (is_sleeping p.state && chan_eq p.chan c)) [
  | inl z ↦ rw z
  | inr z ↦ rw z z
]

map-Awake : (base : ℕ) (c : Chan) (ps : List Proc) → All (Awake c) (map (wake_one base c) ps)
map-Awake base c [] = tt
map-Awake base c (p ∷ ps) = (wake_one-Awake base c p, map-Awake base c ps)

-- After a wakeup no process sleeps on the channel.
pub wakeup1-Awake : (c : Chan) (s : System) → All (Awake c) (wakeup1 c s).procs
unfolding wakeup1
wakeup1-Awake c s = map-Awake (wake_base s.procs) c s.procs

All-AtLeast_weaken : (ps : List Proc) (v w : ℕ) → v ≤ w → All (AtLeast w) ps → All (AtLeast v) ps
All-AtLeast_weaken [] v w h a = tt
All-AtLeast_weaken (p ∷ ps) v w h a = ((λ r. omega (arith, a.0 r)), All-AtLeast_weaken ps v w h a.1)

-- The new minimum after one entry.
abbrev lower : Proc → ℕ → ℕ
lower p m = if is_runnable p.state then (if ltb p.vruntime m then p.vruntime else m) else m

lower_bounds : (p : Proc) (m : ℕ) → (lower p m ≤ m) × AtLeast (lower p m) p
lower_bounds p m = elim (Bool-cases (is_runnable p.state)) [
  | inl z ↦ rw z (ground arith, λ r. ground arith)
  | inr z ↦ rw z (omega arith, λ r. cc)
]

min_runnable-le : (ps : List Proc) (m : ℕ) → min_runnable ps m ≤ m
unfolding min_runnable
min_runnable-le [] m = omega arith
min_runnable-le (p ∷ ps) m = omega (arith, min_runnable-le ps (lower p m), (lower_bounds p m).0)

min_runnable-AtLeast : (ps : List Proc) (m : ℕ) → All (AtLeast (min_runnable ps m)) ps
unfolding min_runnable
min_runnable-AtLeast [] m = tt
min_runnable-AtLeast (p ∷ ps) m = (
  (λ r. omega (arith, min_runnable-le ps (lower p m), (lower_bounds p m).1 r)),
  min_runnable-AtLeast ps (lower p m),
)

abbrev Idle : Proc → Type 0
Idle p = is_runnable p.state ≡ false

-- If the first loop found none, none is runnable.
last_runnable-Idle :
    (ps : List Proc) (m : ℕ) (b : Bool)
    → (last_runnable ps m b).1 ≡ false
    → (b ≡ false) × All Idle ps
unfolding last_runnable
last_runnable-Idle [] m b h = (h, tt)
last_runnable-Idle (p ∷ ps) m b h = elim (Bool-cases (is_runnable p.state)) [
  | inl z ↦ absurd (false_found (rw z at (last_runnable-Idle ps _ _ h).0))
  | inr z ↦ (rw z at (last_runnable-Idle ps _ _ h).0, (z, (last_runnable-Idle ps _ _ h).1))
]
  where
    false_found : true ≡ false → ⊥
    false_found e = cc

All-Idle-AtLeast : (v : ℕ) (ps : List Proc) → All Idle ps → All (AtLeast v) ps
All-Idle-AtLeast v [] a = tt
All-Idle-AtLeast v (p ∷ ps) a = ((λ r. ground arith), All-Idle-AtLeast v ps a.1)

wake_base-AtLeast : (ps : List Proc) → All (AtLeast (wake_base ps)) ps
unfolding wake_base
wake_base-AtLeast ps = elim (Bool-cases (last_runnable ps 0 false).1) [
  | inl z ↦ rw z (min_runnable-AtLeast ps _)
  | inr z ↦ rw z (All-Idle-AtLeast _ ps (last_runnable-Idle ps 0 false z).1)
]

wake_one_ahead :
    (base : ℕ) (c : Chan) (p : Proc)
    → (is_sleeping p.state && chan_eq p.chan c) ≡ true
    → ((wake_one base c p).state ≡ runnable) × ((wake_one base c p).vruntime ≤ base)
unfolding wake_one
wake_one_ahead base c p h = rw h (refl, ground arith)

-- A process asleep on the channel becomes runnable, and no process that was runnable before the
-- wakeup has a smaller virtual runtime.
pub wakeup1_ahead :
    (c : Chan) (s : System) (i : ℕ) (p : Proc)
    → get_elem? s.procs i ≡ some p
    → (is_sleeping p.state && chan_eq p.chan c) ≡ true
    → (q : Proc) × (get_elem? (wakeup1 c s).procs i ≡ some q)
      × (q.state ≡ runnable)
      × All (AtLeast q.vruntime) s.procs
unfolding wakeup1
wakeup1_ahead c s i p e h = (
  wake_one (wake_base s.procs) c p,
  get_elem?-map (wake_one (wake_base s.procs) c) s.procs i e,
  (wake_one_ahead (wake_base s.procs) c p h).0,
  All-AtLeast_weaken s.procs _ _ (wake_one_ahead (wake_base s.procs) c p h).1
      (wake_base-AtLeast s.procs),
)

-- A process that does not sleep on the channel is left as it is.
pub wakeup1_others :
    (c : Chan) (s : System) (i : ℕ) (p : Proc)
    → get_elem? s.procs i ≡ some p
    → Awake c p
    → get_elem? (wakeup1 c s).procs i ≡ some p
unfolding wakeup1
wakeup1_others c s i p e h =
    get_elem?-map (wake_one (wake_base s.procs) c) s.procs i e ∙ ap some (same _)
  where
    same : (base : ℕ) → wake_one base c p ≡ p
    same base = unfold wake_one in rw h
