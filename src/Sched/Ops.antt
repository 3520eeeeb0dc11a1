-- ===== src/Sched/Ops.antt =====
-- Creating and choosing processes; `nice` values.
use os.Base.{
  ℕ, suc, ◌+◌, ◌-◌, ◌*◌, ◌/◌, ◌%◌, ◌^◌, Bool, true, false, ◌&&◌, Option, none, some, List, [], ◌∷◌,
  get_elem?, modify, find_index, ltb, ◌==◌, if◌then◌else◌, ℤ, pos, negsuc, minus_one, codes,
}
use os.Sched.Defs.{
  unused, embryo, runnable, running, is_unused, is_runnable, Proc, System, weight, u32,
}

-- `p == q` for two pointers into the table.
abbrev pub same_slot : Option ℕ → ℕ → Bool
same_slot none i = false
same_slot (some j) i = j == i

-- A word that C reads as `int`.
abbrev pub int_of : ℕ → ℤ
int_of w = if ltb w (2 ^ 31) then pos w else negsuc (u32 - 1 - w)

-- What the label `found` of `allocproc` writes under the lock.
abbrev pub fresh_proc : ℕ → Proc → Proc
fresh_proc pid p = record p {
  state = embryo;
  pid = pid;
  nice = 20;
  runtime_d_weight = 0;
  runtime = 0;
  vruntime = 0;
  time_slice = 0;
}

-- `allocproc`; `page` is what `kalloc` returns.
unfoldable pub allocproc : (page : ℕ) → System → Option ℕ × System
allocproc page s = elim (find_index (λ p. is_unused p.state) s.procs) [
  | none ↦ (none, s)
  | some i ↦
      let s' = record s {
        procs = modify s.procs i (fresh_proc s.next_pid);
        next_pid = (s.next_pid + 1) % u32;
      } in
      if page == 0
      then (
        none,
        record s' { procs = modify s'.procs i (λ p. record p { kstack = 0; state = unused }) },
      )
      else (some i, record s' { procs = modify s'.procs i (λ p. record p { kstack = page }) })
]

-- What `userinit` writes to the first process.
abbrev pub first_proc : (pgdir : ℕ) → Proc → Proc
first_proc pgdir p = record p {
  pgdir = pgdir;
  sz = 4096;
  name = codes "initcode";
  state = runnable;
}

-- `userinit`; `pgdir` is what `setupkvm` returns. `none` is its panic, or the write through the null
-- pointer when no process could be allocated.
unfoldable pub userinit : (page pgdir : ℕ) → System → Option System
unfolding allocproc
userinit page pgdir s =
    let (found, s') = allocproc page s in
    elim found [
      | none ↦ none
      | some i ↦
          if pgdir == 0
          then none
          else some (record s' { procs = modify s'.procs i (first_proc pgdir); init_proc = i })
    ]

-- What `fork` writes to the child `np` of the parent in slot `me`.
abbrev pub inherit : (me pgdir : ℕ) → Proc → Proc → Proc
inherit me pgdir cur np = record np {
  pgdir = pgdir;
  sz = cur.sz;
  parent = some me;
  runtime = cur.runtime;
  vruntime = cur.vruntime;
  nice = cur.nice;
  name = cur.name;
  state = runnable;
}

-- `fork`, called by the process in slot `me`; `page` is what `kalloc` returns for the stack and
-- `pgdir` what `copyuvm` returns.
unfoldable pub fork : (page pgdir me : ℕ) → System → ℤ × System
unfolding allocproc
fork page pgdir me s = elim (get_elem? s.procs me) [
  | none ↦ (minus_one, s)
  | some cur ↦
      let (found, s') = allocproc page s in
      elim found [
        | none ↦ (minus_one, s')
        | some i ↦
            if pgdir == 0
            then (
              minus_one,
              record s' {
                procs = modify s'.procs i (λ p. record p { pgdir = 0; kstack = 0; state = unused });
              },
            )
            else (int_of s.next_pid, record s' { procs = modify s'.procs i (inherit me pgdir cur) })
      ]
]

-- The first loop of `scheduler`: the weights of the runnable processes, summed up.
unfoldable pub total_weight : List Proc → ℕ
total_weight [] = 0
total_weight (p ∷ ps) =
    let rest = total_weight ps in if is_runnable p.state then weight p.nice + rest else rest

-- The second loop: from slot `i` on, with the least `vruntime` so far and its process.
unfoldable pub min_scan : List Proc → ℕ → ℕ → Option ℕ → Option ℕ
min_scan [] i least best = best
min_scan (p ∷ ps) i least best =
    let take_it = min_scan ps (suc i) p.vruntime (some i) in
    let leave_it = min_scan ps (suc i) least best in
    if is_runnable p.state && ltb p.vruntime least then take_it else leave_it

-- The process that a round of `scheduler` chooses; the search starts at `~0`.
unfoldable pub pick_next : List Proc → Option ℕ
unfolding min_scan
pick_next ps = min_scan ps 0 (u32 - 1) none

-- `(10 * 1000 * weight + total - 1) / total`
unfoldable pub slice_of : ℕ → ℕ → ℕ
slice_of w total = (10 * 1000 * w + total - 1) / total

-- One round of `scheduler` up to its `swtch`: the chosen process runs.
unfoldable pub schedule : System → System
unfolding pick_next total_weight slice_of weight
schedule s =
    let total = total_weight s.procs in
    if total == 0 then record s { current = none } else elim (pick_next s.procs) [
      | none ↦ record s { current = none }
      | some i ↦ record s {
        procs =
            modify s.procs i
              (λ p. record p { time_slice = slice_of (weight p.nice) total; state = running });
        current = some i;
      }
    ]

-- `getnice`. A negative `pid` is no process's.
unfoldable pub getnice : ℕ → System → ℤ
getnice pid s = elim (find_index (λ p. p.pid == pid) s.procs) [
  | none ↦ minus_one
  | some i ↦ elim (get_elem? s.procs i) [ none ↦ minus_one | some p ↦ pos p.nice ]
]

-- `value < 0 || value > 39`
abbrev pub invalid_nice : ℤ → Bool
invalid_nice (pos n) = ltb 39 n
invalid_nice (negsuc n) = true

abbrev pub nice_of : ℤ → ℕ
nice_of (pos n) = n
nice_of (negsuc n) = 0

-- `setnice`
unfoldable pub setnice : ℕ → ℤ → System → ℤ × System
setnice pid value s =
    if invalid_nice value then (minus_one, s) else elim (find_index (λ p. p.pid == pid) s.procs) [
      | none ↦ (minus_one, s)
      | some i ↦
          (pos 0, record s { procs = modify s.procs i (λ p. record p { nice = nice_of value }) })
    ]
