-- ===== src/Sched/Waits.antt =====
-- What a round of `wait` does, on every path.
use os.Base.{
  ℕ, zero, suc, ◌+◌, ◌≡◌, refl, ap, ◌∙◌, inl, inr, Bool, true, false, ◌&&◌, none, some, List, [],
  ◌∷◌, arith, get_elem?, modify, Bool-cases, minus_one, if◌then◌else◌,
}
use native.Mathlib.Nat.{zero-add}
use os.Sched.Defs.{Proc, System, unused, is_zombie, slot}
use os.Sched.Ops.{same_slot, int_of}
use os.Sched.Sleep.{
  Scan, reap, kids, alone, wait_scan, Waited, returns, sleeps, sleep, after_scan, wait,
}
use os.Sched.Orphans.{Childless}

-- Whether an entry is a child of the process in slot `me`, and one that has ended.
abbrev pub is_child : ℕ → Proc → Bool
is_child me p = same_slot p.parent me

abbrev pub NoZombies : ℕ → List Proc → Type 0
NoZombies me ps =
    (j : ℕ) (q : Proc) → get_elem? ps j ≡ some q → is_child me q ≡ true → is_zombie q.state ≡ false

-- The ways in which a round can end. The entry of a child that is reaped is unused and has no stack,
-- identifier, parent, name or mark as killed.
pub data Outcome (me : ℕ) (cur : Proc) (s : System) (w : Waited) : Type 0 where
  reaped :
      (i : ℕ) (p : Proc)
      → get_elem? s.procs i ≡ some p
      → is_child me p ≡ true
      → is_zombie p.state ≡ true
      → w
        ≡ returns (int_of p.pid) (record s {
          procs = modify s.procs i (λ (q : Proc). record q {
            kstack = 0;
            pid = 0;
            parent = none;
            name = 0 ∷ [];
            killed = false;
            state = unused;
          });
        })
      → Outcome me cur s w
  childless : Childless me s.procs → w ≡ returns minus_one s → Outcome me cur s w
  killed : NoZombies me s.procs → cur.killed ≡ true → w ≡ returns minus_one s → Outcome me cur s w
  waits :
      (i : ℕ) (p : Proc)
      → get_elem? s.procs i ≡ some p
      → is_child me p ≡ true
      → NoZombies me s.procs
      → cur.killed ≡ false
      → w ≡ sleeps (sleep (slot me) me s)
      → Outcome me cur s w

-- What the scan of the entries from `i` on has found, when it had found `found` before.
data Scanned (me : ℕ) (ps : List Proc) (i : ℕ) (found : Scan) (r : Scan) : Type 0 where
  zombie_at :
      (k : ℕ) (p : Proc)
      → get_elem? ps k ≡ some p
      → is_child me p ≡ true
      → is_zombie p.state ≡ true
      → r ≡ reap (i + k)
      → Scanned me ps i found r
  live_only :
      (k : ℕ) (p : Proc)
      → get_elem? ps k ≡ some p
      → is_child me p ≡ true
      → NoZombies me ps
      → r ≡ kids
      → Scanned me ps i found r
  none_new : Childless me ps → r ≡ found → Scanned me ps i found r

module _ (me : ℕ) (p : Proc) (ps : List Proc) (i : ℕ) (found : Scan) where
  NoZombies-cons :
      (is_child me p && is_zombie p.state) ≡ false → NoZombies me ps → NoZombies me (p ∷ ps)
  NoZombies-cons h n zero q e c = ground arith
  NoZombies-cons h n (suc j) q e c = n j q e c

  Childless-cons : is_child me p ≡ false → Childless me ps → Childless me (p ∷ ps)
  Childless-cons h n zero q e = ground arith
  Childless-cons h n (suc j) q e = n j q e

  Childless-NoZombies : Childless me ps → NoZombies me ps
  Childless-NoZombies n j q e c = ground (arith, n j q e)

shift_reap : (i k : ℕ) {r : Scan} → r ≡ reap (suc i + k) → r ≡ reap (i + suc k)
shift_reap i k e = ground arith

module _ (me : ℕ) (p : Proc) (ps : List Proc) (i : ℕ) (found : Scan)
    (live : (is_child me p && is_zombie p.state) ≡ false) {r : Scan} where
  Scanned-cons :
      Scanned me ps (suc i) (if is_child me p then kids else found) r
      → Scanned me (p ∷ ps) i found r
  Scanned-cons (zombie_at k q e c z h) = zombie_at (suc k) q e c z (shift_reap i k h)
  Scanned-cons (live_only k q e c n h) =
      live_only (suc k) q e c (NoZombies-cons me p ps i found live n) h
  Scanned-cons (none_new n h) = elim (Bool-cases (is_child me p)) [
    | inl c ↦
        live_only 0 p refl c
          (NoZombies-cons me p ps i found live (Childless-NoZombies me p ps i found n))
          (ground arith)
    | inr c ↦ none_new (Childless-cons me p ps i found c n) (ground arith)
  ]

wait_scan-Scanned :
    (me : ℕ) (ps : List Proc) (i : ℕ) (found : Scan)
    → Scanned me ps i found (wait_scan me ps i found)
unfolding wait_scan
wait_scan-Scanned me [] i found = none_new (λ j q e. cc) refl
wait_scan-Scanned me (p ∷ ps) i found = elim (Bool-cases (is_child me p && is_zombie p.state)) [
  | inl z ↦ rw z (zombie_at 0 p refl (ground arith) (ground arith) (ground arith))
  | inr z ↦ rw z (Scanned-cons me p ps i found z (wait_scan-Scanned me ps (suc i) _))
]

after_scan-Outcome :
    (me : ℕ) (cur : Proc) (s : System) (r : Scan)
    → Scanned me s.procs 0 alone r
    → Outcome me cur s (after_scan me cur s r)
unfolding after_scan
after_scan-Outcome me cur s r (zombie_at k p e c z h) =
    reaped k p e c z (rw (h ∙ ap reap (zero-add k), after_scan) (rw (e, after_scan)))
after_scan-Outcome me cur s r (live_only k p e c n h) = elim (Bool-cases cur.killed) [
  | inl d ↦ killed n d (rw (h, after_scan, d))
  | inr d ↦ waits k p e c n d (rw (h, after_scan, d))
]
after_scan-Outcome me cur s r (none_new n h) = childless n (rw (h, after_scan))

-- A round of `wait` reaps a child that has ended and returns its identifier if there is one. It
-- returns -1 only if the process has no child, or is killed and none of its children has ended.
-- Otherwise it sleeps on its own slot.
pub wait-Outcome :
    (me : ℕ) (cur : Proc) (s : System)
    → get_elem? s.procs me ≡ some cur
    → Outcome me cur s (wait me s)
unfolding wait
wait-Outcome me cur s e =
    rw (e, wait) (after_scan-Outcome me cur s _ (wait_scan-Scanned me s.procs 0 alone))
