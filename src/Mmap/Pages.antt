-- ===== src/Mmap/Pages.antt =====
-- The page allocator's count and `mappages`, pa3/xv6-public/kalloc.c and vm.c.
use os.Base.{
  ℕ, ◌+◌, ◌-◌, ◌*◌, ◌%◌, ◌≤◌, ◌<◌, ◌==◌, ◌||◌, not, ltb, leb, false, ◌≡◌, refl, ap, ◌∙◌, ◌⊎◌, inl,
  inr, Bool, true, Option, none, some, List, [], ◌∷◌, arith, length, ==_iff,
}
use Prim.Native.Nat.{bit_or}
use os.Mmap.Memory.{
  page_size, kern_base, phys_top, p2v, v2p, list_head, freed_page, pte_p, u32, Pte, Table, State,
  update, kfree, kalloc, pdx, ptx, lookup_pte, walk_alloc, set_pte, ok, mappages,
}

-- `freemem` returns the length of the free list.
abbrev pub Counted : State → Type 0
Counted s = (s.fmem_count ≡ length s.freelist) × (length s.freelist < u32)

-- A frame of the memory that the kernel hands out, so that `kfree` accepts it.
pub record IsFrame (s : State) (a : ℕ) : Type 0 where
  pub after_kernel : s.kernel_end ≤ a * page_size + kern_base
  pub below_top : a * page_size < phys_top

accepted :
    (v low : ℕ)
    → low ≤ v * page_size + kern_base
    → v * page_size < phys_top
    → not (p2v (v * page_size) % page_size == 0)
        || ltb (p2v (v * page_size)) low
        || leb phys_top (v2p (p2v (v * page_size)))
      ≡ false
accepted v low h k = ground arith

pub kfree_lem :
    (a : ℕ) (s : State)
    → IsFrame s a
    → kfree a s
      ≡ some (record s {
        frames = update s.frames a (freed_page (list_head s.freelist));
        fmem_count = (s.fmem_count + 1) % u32;
        freelist = a ∷ s.freelist;
      })
unfolding kfree
kfree_lem a s f = rw (accepted a s.kernel_end f.after_kernel f.below_top, kfree) refl

-- Allocating a page keeps the count true if there is one. If there is none, the count is wrong from
-- then on: `freemem` returns the largest word.
pub kalloc-Counted :
    (s : State)
    → Counted s
    → ((a : ℕ) × (rest : List ℕ) × (s.freelist ≡ a ∷ rest)
        × ((kalloc s).0 ≡ some a)
        × Counted (kalloc s).1)
      ⊎ ((s.freelist ≡ []) × ((kalloc s).0 ≡ none) × ((kalloc s).1.fmem_count ≡ u32 - 1))
unfolding kalloc
kalloc-Counted s c = go s.freelist refl
  where
    go :
        (l : List ℕ)
        → s.freelist ≡ l
        → ((a : ℕ) × (rest : List ℕ) × (s.freelist ≡ a ∷ rest)
            × ((kalloc s).0 ≡ some a)
            × Counted (kalloc s).1)
          ⊎ ((s.freelist ≡ []) × ((kalloc s).0 ≡ none) × ((kalloc s).1.fmem_count ≡ u32 - 1))
    go [] e = inr (e, rw (e, kalloc), rw (e, kalloc) (omega (arith, ap length e)))
    go (a ∷ rest) e = inl (a, rest, e, rw (e, kalloc), rw (e, kalloc) (omega (arith, ap length e)))

pub kalloc_of_cons :
    (s : State) (a : ℕ) (rest : List ℕ)
    → s.freelist ≡ a ∷ rest
    → kalloc s ≡ (some a, record s { fmem_count = (s.fmem_count + u32 - 1) % u32; freelist = rest })
unfolding kalloc
kalloc_of_cons s a rest e = rw (e, kalloc)

module _ (me va : ℕ) (s : State) (t : Table) (there : s.pgdirs me (pdx va) ≡ some t) where
  pub lookup_pte_lem : lookup_pte s me va ≡ t.entries (ptx va)
  unfolding lookup_pte
  lookup_pte_lem = rw (there, lookup_pte)

  -- The page directories after a write to an entry.
  pub set_pte_lem :
      (e : Option Pte)
      → set_pte me va e s ≡ record s {
        pgdirs = update s.pgdirs me (
            update
              (s.pgdirs me)
              (pdx va)
              (some (record t { entries = update t.entries (ptx va) e })));
      }
  unfolding set_pte
  set_pte_lem e = rw (there, set_pte)

  pub lookup-set_pte : (e : Option Pte) → lookup_pte (set_pte me va e s) me va ≡ e
  unfolding lookup_pte
  lookup-set_pte e = rw (
    set_pte_lem e,
    (==_iff me me).1 refl,
    (==_iff (pdx va) (pdx va)).1 refl,
    lookup_pte,
    (==_iff (ptx va) (ptx va)).1 refl,
  )

  walk_alloc_lem : walk_alloc me va s ≡ (true, s)
  unfolding walk_alloc
  walk_alloc_lem = rw (there, walk_alloc)

  pub mappages_lem :
      (pa perm : ℕ)
      → t.entries (ptx va) ≡ none
      → mappages me va pa perm s ≡ ok (set_pte me va (some (bit_or (bit_or pa perm) pte_p)) s)
  unfolding mappages walk_alloc
  mappages_lem pa perm empty =
      rw (there, walk_alloc)
        (rw (lookup_pte_lem ∙ empty, mappages)
          (ap (λ (p : Bool × State). ok (set_pte me va (some (bit_or (bit_or pa perm) pte_p)) p.1))
            walk_alloc_lem))
