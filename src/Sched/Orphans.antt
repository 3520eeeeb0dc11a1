-- ===== src/Sched/Orphans.antt =====
-- The children of a process that ends.
use os.Base.{
  ℕ, zero, suc, ◌+◌, ◌≤◌, ◌<◌, ◌≡◌, ◌≢◌, refl, sym, ap, subst, ◌∙◌, inl, inr, true, false, none,
  some, List, arith, ◌==◌, get_elem?, modify, length, get_elem?-modify_self, get_elem?-modify_ne,
  get_elem?-map_inv, lt-length_of_some, length-le_of_none, length-map, length-modify,
  get_elem?-modify_inv, Option-cases, Bool-cases, ==_iff,
}
use os.Sched.Defs.{Proc, System, Chan, slot, zombie, is_zombie}
use os.Sched.Ops.{same_slot}
use os.Sched.Sleep.{wake_one, wake_base, wakeup1, adopt, reparent, parent_chan, become_zombie, exit}

-- No entry before `i` is a child of the process in slot `me`.
abbrev pub Orphans : ℕ → ℕ → List Proc → Type 0
Orphans me i ps =
    (j : ℕ) (q : Proc) → j < i → get_elem? ps j ≡ some q → same_slot q.parent me ≡ false

wake_one-parent : (base : ℕ) (c : Chan) (p : Proc) → (wake_one base c p).parent ≡ p.parent
unfolding wake_one
wake_one-parent base c p = ground arith

wakeup1-Orphans :
    (me i : ℕ) (c : Chan) (s : System) → Orphans me i s.procs → Orphans me i (wakeup1 c s).procs
unfolding wakeup1
wakeup1-Orphans me i c s o j q lt e =
    let (p, at, same) = get_elem?-map_inv (wake_one (wake_base s.procs) c) s.procs j q e in
    subst (λ x. same_slot x.parent me ≡ false) same
      (rw (wake_one-parent (wake_base s.procs) c p) (o j p lt at))

init-ne : (me init : ℕ) → me ≢ init → same_slot (some init) me ≡ false
init-ne me init ne = ground arith

moved-Orphans :
    (me i init : ℕ) (ps : List Proc) (p : Proc)
    → me ≢ init
    → get_elem? ps i ≡ some p
    → Orphans me i ps
    → Orphans me (suc i) (modify ps i (λ q. record q { parent = some init }))
moved-Orphans me i init ps p ne e o j q lt at = elim (Bool-cases (i == j)) [
  | inl z ↦ ground (
    arith,
    ap (λ k. get_elem? (modify ps i (λ x. record x { parent = some init })) k) (same z),
    get_elem?-modify_self ps i (λ x. record x { parent = some init }) e,
    init-ne me init ne,
  )
  | inr z ↦ o j q (ground arith) (sym (get_elem?-modify_ne ps i j _ (ground arith)) ∙ at)
]
  where
    same : (i == j) ≡ true → i ≡ j
    same z = ground arith

adopt-Orphans :
    (me i : ℕ) (p : Proc) (s : System)
    → me ≢ s.init_proc
    → get_elem? s.procs i ≡ some p
    → Orphans me i s.procs
    → Orphans me (suc i) (adopt me i p s).procs
unfolding adopt
adopt-Orphans me i p s ne e o = elim (Bool-cases (same_slot p.parent me)) [
  | inl y ↦ rw y (elim (Bool-cases (is_zombie p.state)) [
    | inl z ↦ rw z (
        wakeup1-Orphans me (suc i) (slot s.init_proc) moved
          (moved-Orphans me i s.init_proc s.procs p ne e o))
    | inr z ↦ rw z (moved-Orphans me i s.init_proc s.procs p ne e o)
  ])
  | inr y ↦ rw y (kept y)
]
  where
    moved : System
    moved = record s { procs = modify s.procs i (λ q. record q { parent = some s.init_proc }) }

    kept : same_slot p.parent me ≡ false → Orphans me (suc i) s.procs
    kept y j q lt at = elim (Bool-cases (i == j)) [
      | inl z ↦ ground (arith, ap (get_elem? s.procs) ((==_iff i j).0 z))
      | inr z ↦ o j q (ground arith) at
    ]

adopt-init_proc : (me i : ℕ) (p : Proc) (s : System) → (adopt me i p s).init_proc ≡ s.init_proc
unfolding adopt wakeup1
adopt-init_proc me i p s = ground arith

adopt-length : (me i : ℕ) (p : Proc) (s : System) → length (adopt me i p s).procs ≡ length s.procs
unfolding adopt wakeup1
adopt-length me i p s = elim (Bool-cases (same_slot p.parent me)) [
  | inl y ↦ rw y (elim (Bool-cases (is_zombie p.state)) [
    | inl z ↦ rw z (length-map _ _ ∙ length-modify s.procs i _)
    | inr z ↦ rw z (length-modify s.procs i _)
  ])
  | inr y ↦ rw y
]

-- No entry is a child of the process in slot `me`.
abbrev pub Childless : ℕ → List Proc → Type 0
Childless me ps = (j : ℕ) (q : Proc) → get_elem? ps j ≡ some q → same_slot q.parent me ≡ false

reparent-Childless :
    (n me i : ℕ) (s : System)
    → me ≢ s.init_proc
    → length s.procs ≤ i + n
    → Orphans me i s.procs
    → Childless me (reparent n me i s).procs
unfolding reparent
reparent-Childless zero me i s ne few o =
    λ j q e. o j q (omega (arith, lt-length_of_some s.procs j e)) e
reparent-Childless (suc n) me i s ne few o = elim (Option-cases (get_elem? s.procs i)) [
  | inl f ↦
      rw (f, reparent)
        (λ j q e.
          o j q (omega (arith, length-le_of_none s.procs i f, lt-length_of_some s.procs j e)) e)
  | inr (p, f) ↦
      rw (f, reparent)
        (reparent-Childless n me (suc i) (adopt me i p s) (ground (arith, adopt-init_proc me i p s))
          (omega (arith, adopt-length me i p s)) (adopt-Orphans me i p s ne f o))
]

length-wakeup1 : (c : Chan) (s : System) → length (wakeup1 c s).procs ≡ length s.procs
unfolding wakeup1
length-wakeup1 c s = length-map _ s.procs

become-Childless :
    (me : ℕ) (s : System) → Childless me s.procs → Childless me (become_zombie me s).procs
become-Childless me s c j q e =
    let (p, at, g) = get_elem?-modify_inv s.procs me j (λ p. record p { state = zombie }) q e in
    elim (Bool-cases (me == j)) [ inl z ↦ ground (arith, c j p) | inr z ↦ ground (arith, c j p) ]

become-zombie :
    (me : ℕ) (s : System) (z : Proc)
    → get_elem? (become_zombie me s).procs me ≡ some z
    → z.state ≡ zombie
become-zombie me s z e =
    let (p, at, g) = get_elem?-modify_inv s.procs me me (λ p. record p { state = zombie }) z e in
    ground (arith, (==_iff me me).1 refl)

-- When a process has ended, no entry of the table is its child any more, and its own is a zombie.
pub exit-Childless :
    (slots me : ℕ) (s t : System)
    → length s.procs ≤ slots
    → exit slots me s ≡ some t
    → Childless me t.procs × ((z : Proc) → get_elem? t.procs me ≡ some z → z.state ≡ zombie)
unfolding exit
exit-Childless slots me s t few h = elim (Option-cases (get_elem? s.procs me)) [
  | inl e ↦ absurd (gone e)
  | inr (cur, e) ↦
      subst
        (λ u.
          Childless me u.procs × ((z : Proc) → get_elem? u.procs me ≡ some z → z.state ≡ zombie))
        (ended cur e)
        (
          become-Childless me (swept cur) (
              reparent-Childless slots me 0 (wakeup1 (parent_chan cur.parent) s) ne
                (omega (arith, length-wakeup1 (parent_chan cur.parent) s))
                (λ j q lt f. absurd (omega arith))),
          λ z f. (become-zombie me (swept cur) z f),
        )
]
  where
    swept : Proc → System
    swept cur = reparent slots me 0 (wakeup1 (parent_chan cur.parent) s)

    gone : get_elem? s.procs me ≡ none → ⊥
    gone e = ground arith

    ne : me ≢ s.init_proc
    ne = ground (arith, Bool-cases (me == s.init_proc))

    ended :
        (cur : Proc)
        → get_elem? s.procs me ≡ some cur
        → become_zombie me (reparent slots me 0 (wakeup1 (parent_chan cur.parent) s)) ≡ t
    ended cur e = ground arith
