-- ===== src/Mmap/Kills.antt =====
-- The flag `killed` after a page fault, pa3/xv6-public/proc.c.
use os.Base.{
  ℕ, ◌*◌, ◌≡◌, refl, ◌∙◌, inl, inr, Bool, true, ◌&&◌, not, Option, some, List, [], ◌∷◌, get_elem?,
  find_index, Bool-cases, Option-cases, ==_iff,
}
use Prim.Native.Nat.{bit_or}
use os.Mmap.Memory.{
  page_size, prot_write, pte_p, Pte, Area, State, kalloc, clear_frame, pdx, lookup_pte, set_pte,
  walk_alloc, walk_alloc, Mapped, ok, failed, remap, mappages, fileread,
}
use os.Mmap.Defs.{
  Result, returns, fails, panics, null_pointer, covers, round_down, kill, backing, no_file,
  fill_page, load_page, seek, fault_perm, fault_in, page_fault_handler,
}

-- How the handler leaves the flag `killed` of the process.
abbrev pub KillsOnFailure : ℕ → State → Result → Type 0
KillsOnFailure me s (returns n s') = (n ≡ 0) × (s'.killed ≡ s.killed)
KillsOnFailure me s (fails s') = s'.killed me ≡ true
KillsOnFailure me s panics = Unit
KillsOnFailure me s null_pointer = Unit

kalloc-killed : (s : State) → (kalloc s).1.killed ≡ s.killed
unfolding kalloc
kalloc-killed s = go s.freelist refl
  where
    go : (l : List ℕ) → s.freelist ≡ l → (kalloc s).1.killed ≡ s.killed
    go [] e = rw (e, kalloc)
    go (a ∷ rest) e = rw (e, kalloc)

walk_alloc-killed : (me va : ℕ) (s : State) → (walk_alloc me va s).1.killed ≡ s.killed
unfolding walk_alloc
walk_alloc-killed me va s = elim (Option-cases (s.pgdirs me (pdx va))) [
  | inr (t, z) ↦ rw (z, walk_alloc)
  | inl z ↦ elim (Option-cases (kalloc s).0) [
    | inl y ↦ rw (z, walk_alloc) (rw (y) (kalloc-killed s))
    | inr (a, y) ↦ rw (z, walk_alloc) (rw (y) (kalloc-killed s))
  ]
]

set_pte-killed : (me va : ℕ) (e : Option Pte) (s : State) → (set_pte me va e s).killed ≡ s.killed
unfolding set_pte
set_pte-killed me va e s = elim (Option-cases (s.pgdirs me (pdx va))) [
  | inr (t, z) ↦ rw (z, set_pte)
  | inl z ↦ rw (z, set_pte)
]

abbrev KeepsKilled : State → Mapped → Type 0
KeepsKilled s (ok s') = s'.killed ≡ s.killed
KeepsKilled s (failed s') = s'.killed ≡ s.killed
KeepsKilled s remap = Unit

mappages-KeepsKilled : (me va pa perm : ℕ) (s : State) → KeepsKilled s (mappages me va pa perm s)
unfolding mappages
mappages-KeepsKilled me va pa perm s =
    let s' = (walk_alloc me va s).1 in
    elim (Bool-cases (walk_alloc me va s).0) [
      | inr z ↦ rw (z, mappages) (walk_alloc-killed me va s)
      | inl z ↦ elim (Option-cases (lookup_pte s' me va)) [
        | inl y ↦
            rw (z, mappages)
              (rw (y) (
                set_pte-killed me va (some (bit_or (bit_or pa perm) pte_p)) s'
                ∙ walk_alloc-killed me va s))
        | inr (old, y) ↦ rw (z, mappages) (rw (y) tt)
      ]
    ]

load_page-killed : (a : Area) (m : ℕ) (s : State) → (load_page a m s).killed ≡ s.killed
unfolding fill_page fileread
load_page-killed a m s = elim (Option-cases (backing a)) [
  | inl z ↦ rw (z)
  | inr (f, z) ↦ elim (Bool-cases ((seek f a.offset (clear_frame m s)).files f).readable) [
    | inl y ↦ rw (z) (rw (y))
    | inr y ↦ rw (z) (rw (y))
  ]
]

killed_lem : (me : ℕ) (s : State) → (kill me s).killed me ≡ true
killed_lem me s = rw ((==_iff me me).1 refl)

mapped :
    (me : ℕ) (s s' : State) (m : Mapped)
    → s'.killed ≡ s.killed
    → KeepsKilled s' m
    → KillsOnFailure me s
        (elim m [ ok s'' ↦ returns 0 s'' | failed s'' ↦ fails (kill me s'') | remap ↦ panics ])
mapped me s s' (ok s'') h k = (refl, k ∙ h)
mapped me s s' (failed s'') h k = killed_lem me s''
mapped me s s' remap h k = tt

fault_in-KillsOnFailure :
    (me va : ℕ) (is_write : Bool) (a : Area) (s : State)
    → KillsOnFailure me s (fault_in me va is_write a s)
unfolding fault_in
fault_in-KillsOnFailure me va is_write a s =
    elim (Bool-cases (is_write && not (prot_write a.prot))) [
      | inl z ↦ rw (z, fault_in) (killed_lem me s)
      | inr z ↦ elim (Option-cases (kalloc s).0) [
        | inl y ↦ rw (z, fault_in) (rw (y) (killed_lem me (kalloc s).1))
        | inr (m, y) ↦
            let s₂ = load_page a m (kalloc s).1 in
            elim (Bool-cases (no_file a)) [
              | inl x ↦ rw (z, fault_in) (rw (y) (rw (x) tt))
              | inr x ↦
                  rw (z, fault_in)
                    (rw (y) (
                      rw (x) (
                        mapped me s s₂ (mappages me va (m * page_size) (fault_perm a is_write) s₂)
                          (load_page-killed a m (kalloc s).1 ∙ kalloc-killed s)
                          (mappages-KeepsKilled me va (m * page_size) (fault_perm a is_write) s₂))))
            ]
      ]
    ]

-- However the handler ends, if it ends with -1 then the process is marked as killed, and if it ends
-- with 0 then no process becomes killed by it.
pub page_fault_handler-KillsOnFailure :
    (me fault_addr : ℕ) (is_write : Bool) (s : State)
    → KillsOnFailure me s (page_fault_handler me fault_addr is_write s)
unfolding page_fault_handler
page_fault_handler-KillsOnFailure me fault_addr is_write s =
    elim (Option-cases (find_index (covers me (round_down fault_addr)) s.areas)) [
      | inl z ↦ rw (z, page_fault_handler) (killed_lem me s)
      | inr (i, z) ↦ elim (Option-cases (get_elem? s.areas i)) [
        | inl y ↦ rw (z, page_fault_handler) (rw (y) (killed_lem me s))
        | inr (a, y) ↦
            rw (z, page_fault_handler)
              (rw (y) (fault_in-KillsOnFailure me (round_down fault_addr) is_write a s))
      ]
    ]
