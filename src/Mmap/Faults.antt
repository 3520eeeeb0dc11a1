-- ===== src/Mmap/Faults.antt =====
-- What the page fault handler maps, pa3/xv6-public/proc.c.
use os.Base.{
  ℕ, ◌+◌, ◌-◌, ◌*◌, ◌%◌, ◌≡◌, refl, ap, ◌∙◌, inl, inr, Bool, true, false, ◌&&◌, not, Option, none,
  some, List, ◌∷◌, min, get_elem?, find_index, ltb, if◌then◌else◌, Bool-cases, Option-cases, ==_iff,
}
use Prim.Native.Nat.{bit_or}
use os.Mmap.Memory.{
  prot_write, pte_p, pte_u, pte_w, u32, page_size, Page, Table, Area, State, update, filled,
  clear_frame, pdx, ptx, lookup_pte, set_pte, fileread,
}
use os.Mmap.Defs.{
  returns, covers, round_down, backing, no_file, fill_page, load_page, seek, fault_perm, fault_in,
  page_fault_handler,
}
use os.Mmap.Pages.{kalloc_of_cons, mappages_lem, lookup-set_pte, set_pte_lem}

-- The bytes that a page of a mapping gets: those of its file from the offset of the area on, with
-- zeros past the end, and zeros for an anonymous mapping.
abbrev pub contents : State → Option ℕ → ℕ → Page
contents s none offset i = 0
contents s (some f) offset i =
    if ltb i (min page_size ((s.files f).size - offset)) then (s.files f).bytes (offset + i) else 0

module _ {ℓ} {A : Type ℓ} where
  update_self : (g : ℕ → A) (k : ℕ) (v : A) → update g k v k ≡ v
  update_self g k v = rw ((==_iff k k).1 refl)

fill_page-contents :
    (s : State) (f offset m i : ℕ)
    → (s.files f).readable ≡ true
    → (fill_page (some f) offset m s).frames m i ≡ contents s (some f) offset i
unfolding fill_page fileread
fill_page-contents s f offset m i r =
    rw (update_self s.files f (record (s.files f) { off = offset }), r, (==_iff m m).1 refl)

fill_page-pgdirs :
    (o : Option ℕ) (offset m : ℕ) (s : State) → (fill_page o offset m s).pgdirs ≡ s.pgdirs
unfolding fill_page fileread
fill_page-pgdirs none offset m s = refl
fill_page-pgdirs (some f) offset m s =
    elim (Bool-cases ((seek f offset (clear_frame m s)).files f).readable) [
      | inl z ↦ rw (z)
      | inr z ↦ rw (z)
    ]

load_page-pgdirs : (a : Area) (m : ℕ) (s : State) → (load_page a m s).pgdirs ≡ s.pgdirs
load_page-pgdirs a m s = elim (Option-cases (backing a)) [
  | inl z ↦ rw (z, fill_page-pgdirs none a.offset m s)
  | inr (f, z) ↦ rw (z, fill_page-pgdirs (some f) a.offset m s)
]

load_page-contents :
    (a : Area) (m : ℕ) (s : State)
    → ((f : ℕ) → backing a ≡ some f → (s.files f).readable ≡ true)
    → (i : ℕ) → (load_page a m s).frames m i ≡ contents s (backing a) a.offset i
unfolding fill_page
load_page-contents a m s r i = elim (Option-cases (backing a)) [
  | inl z ↦ rw (z, update_self s.frames m (filled 0))
  | inr (f, z) ↦ rw (z, fill_page-contents s f a.offset m i (r f z))
]

-- The state once the handler has its page.
abbrev taken : List ℕ → State → State
taken rest s = record s { fmem_count = (s.fmem_count + u32 - 1) % u32; freelist = rest }

fault_in_lem :
    (me va : ℕ) (a : Area) (is_write : Bool) (m : ℕ) (rest : List ℕ) (t : Table) (s : State)
    → is_write && not (prot_write a.prot) ≡ false
    → no_file a ≡ false
    → s.freelist ≡ m ∷ rest
    → s.pgdirs me (pdx va) ≡ some t
    → t.entries (ptx va) ≡ none
    → fault_in me va is_write a s
      ≡ returns 0 (
          set_pte me va
            (some (bit_or (bit_or (m * page_size) (fault_perm a is_write)) pte_p))
            (load_page a m (taken rest s)))
unfolding fault_in
fault_in_lem me va a is_write m rest t s allowed file free there empty =
    let s₁ = taken rest s in
    let e = ap (λ d. d me (pdx va)) (load_page-pgdirs a m s₁) ∙ there in
    let taking = kalloc_of_cons s m rest free in
    rw (
      allowed,
      ap (λ k. k.0) taking,
      ap (λ k. k.1) taking,
      file,
      mappages_lem me va (load_page a m s₁) t e (m * page_size) (fault_perm a is_write) empty,
    )

-- A fault on a page of an area of the process, with the right to it, a frame free, the file of a
-- file mapping open for reading, and the page table there without an entry for the page, is
-- answered: the handler returns; the entry of the page is the address of the first free frame or'ed
-- with PTE_P, PTE_U, the area's protection word and, after a write, PTE_W; and the bytes of the file from the offset of the area on, and
-- zeros after it, are in the frame.
pub page_fault_handler_lem :
    (me fault_addr : ℕ) (is_write : Bool) (i : ℕ) (a : Area) (m : ℕ) (rest : List ℕ) (t : Table)
    (s : State)
    → find_index (covers me (round_down fault_addr)) s.areas ≡ some i
    → get_elem? s.areas i ≡ some a
    → is_write && not (prot_write a.prot) ≡ false
    → no_file a ≡ false
    → ((f : ℕ) → backing a ≡ some f → (s.files f).readable ≡ true)
    → s.freelist ≡ m ∷ rest
    → s.pgdirs me (pdx (round_down fault_addr)) ≡ some t
    → t.entries (ptx (round_down fault_addr)) ≡ none
    → (s' : State) × (page_fault_handler me fault_addr is_write s ≡ returns 0 s')
      × (lookup_pte s' me (round_down fault_addr)
          ≡ some (
              bit_or
                (bit_or
                  (m * page_size)
                  (if is_write then bit_or (bit_or a.prot pte_u) pte_w else bit_or a.prot pte_u))
                pte_p))
      × ((k : ℕ) → s'.frames m k ≡ contents s (backing a) a.offset k)
unfolding page_fault_handler
page_fault_handler_lem me fault_addr is_write i a m rest t s found at_i allowed file readable free
      there empty =
    let va = round_down fault_addr in
    let s₁ = load_page a m (taken rest s) in
    let e = ap (λ d. d me (pdx va)) (load_page-pgdirs a m (taken rest s)) ∙ there in
    (
      set_pte me va (some (bit_or (bit_or (m * page_size) (fault_perm a is_write)) pte_p)) s₁,
      rw (found, page_fault_handler)
          (rw (at_i) (fault_in_lem me va a is_write m rest t s allowed file free there empty)),
      lookup-set_pte me va s₁ t e
          (some (bit_or (bit_or (m * page_size) (fault_perm a is_write)) pte_p)),
      λ k.
          rw
            (set_pte_lem me va s₁ t e
              (some (bit_or (bit_or (m * page_size) (fault_perm a is_write)) pte_p)))
            (load_page-contents a m (taken rest s) readable k),
    )
