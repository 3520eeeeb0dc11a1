-- ===== src/Mmap/Fork.antt =====
-- The part of `fork` that copies the areas, pa3/xv6-public/proc.c.
use os.Base.{
  ℕ, zero, suc, ◌+◌, ◌%◌, ◌&&◌, ◌*◌, not, none, some, if◌then◌else◌, get_elem?, modify, find_index,
}
use Prim.Native.Nat.{bit_or}
use os.Mmap.Memory.{
  pte_u, pte_w, has_bits, frame_of, u32, page_size, Area, State, update, kalloc, lookup_pte, ok,
  failed, remap, mappages,
}
use os.Mmap.Defs.{Result, returns, fails, panics, null_pointer, rounds, same_proc}

-- `perm` for a page with the entry `e` in the parent.
abbrev pub copy_perm : Area → ℕ → ℕ
copy_perm a e =
    let perm = bit_or a.prot pte_u in if has_bits e pte_w then bit_or perm pte_w else perm

-- The innermost loop of `fork`: the pages of an area `a` of the parent `me` for the child `np`. A
-- page is copied to a new frame, but the parent's frame is what is mapped.
unfoldable pub copy_from : ℕ → ℕ → ℕ → ℕ → Area → State → Result
copy_from zero va me np a s = returns 0 s
copy_from (suc n) va me np a s = elim (lookup_pte s me va) [
  | none ↦ copy_from n (va + page_size) me np a s
  | some e ↦
      let (page, s') = kalloc s in
      elim page [
        | none ↦ fails s'
        | some m ↦
            elim (mappages np va (frame_of e * page_size) (copy_perm a e)
              (record s' { frames = update s'.frames m (s'.frames (frame_of e)) })) [
                | failed s'' ↦ panics
                | remap ↦ panics
                | ok s'' ↦ copy_from n (va + page_size) me np a s''
              ]
      ]
]

-- The body of the outer loop of `fork` for one entry.
unfoldable pub copy_area : ℕ → ℕ → Area → State → Result
copy_area me np a s =
    if a.is_used && same_proc a.p me
    then (elim (find_index (λ x. not x.is_used) s.areas) [
      | none ↦ returns 0 s
      | some t ↦
          copy_from (rounds a.addr ((a.addr + a.length) % u32)) a.addr me np a
            (record s { areas = modify s.areas t (λ _. record a { p = some np }) })
    ])
    else returns 0 s

-- The outer loop, over the entries from `i` on.
unfoldable pub copy_areas : ℕ → ℕ → ℕ → ℕ → State → Result
copy_areas zero i me np s = returns 0 s
copy_areas (suc n) i me np s = elim (get_elem? s.areas i) [
  | none ↦ returns 0 s
  | some a ↦ elim (copy_area me np a s) [
    | returns _ s' ↦ copy_areas n (suc i) me np s'
    | fails s' ↦ fails s'
    | panics ↦ panics
    | null_pointer ↦ null_pointer
  ]
]
