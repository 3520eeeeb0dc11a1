-- ===== src/Mmap/Defs.antt =====
-- `mmap`, the page fault handler and `munmap`, pa3/xv6-public/proc.c.
use os.Base.{
  ℕ, zero, suc, ◌+◌, ◌-◌, ◌*◌, ◌/◌, ◌%◌, Bool, true, false, ◌&&◌, ◌||◌, not, Option, none, some,
  List, [], ◌∷◌, ◌==◌, ltb, leb, if◌then◌else◌, get_elem?, modify, find_index, ℤ, pos, negsuc,
}
use Prim.Native.Nat.{bit_or}
use os.Mmap.Memory.{
  prot_read, prot_write, anonymous, populate, pte_u, pte_w, frame_of, u32, page_size, Area, State,
  update, kfree, kalloc, clear_frame, lookup_pte, set_pte, ok, failed, remap, mappages, fileread,
}

-- MMAPBASE
abbrev pub mmap_base : ℕ
mmap_base = 0x4000_0000

-- `init_marea`
abbrev pub empty_area : Area
empty_area = record {
  is_used = false;
  f = none;
  addr = 0;
  length = 0;
  offset = 0;
  prot = 0;
  flags = 0;
  p = none;
}

abbrev pub same_proc : Option ℕ → ℕ → Bool
same_proc none i = false
same_proc (some j) i = j == i

-- How a call ends: with its result, with the result for a failure (-1 in `page_fault_handler` and
-- `munmap`, 0 in `mmap` and `fork`), in a panic, or at the use of a null pointer.
pub data Result : Type 0 where
  returns : ℕ → State → Result
  fails : State → Result
  panics : Result
  null_pointer : Result

-- The entries `va`, `va + PGSIZE`, … below `end`, both aligned: how many rounds the loops over an
-- area make.
abbrev pub rounds : ℕ → ℕ → ℕ
rounds va end = (end - va) / page_size

-- `file->off = offset`
abbrev pub seek : ℕ → ℕ → State → State
seek f offset s = record s { files = update s.files f (record (s.files f) { off = offset }) }

-- The contents of a new page: of the file if there is one, from `offset` on, and 0 elsewhere.
unfoldable pub fill_page : Option ℕ → ℕ → ℕ → State → State
fill_page none offset a s = clear_frame a s
fill_page (some f) offset a s = fileread f a (seek f offset (clear_frame a s))

-- What `mmap` is called with. `fd` is -1 or an index; a read past `ofile` is a closed file here.
pub record Request : Type 0 where
  pub addr : ℕ
  pub length : ℤ
  pub prot : ℕ
  pub flags : ℕ
  pub fd : ℤ
  pub offset : ℕ

-- `length <= 0 || length % PGSIZE != 0`
abbrev pub bad_length : ℤ → Bool
bad_length (pos n) = n == 0 || not (n % page_size == 0)
bad_length (negsuc n) = true

abbrev pub length_of : ℤ → ℕ
length_of (pos n) = n
length_of (negsuc n) = 0

-- `curproc->ofile[fd]`
abbrev pub ofile_of : State → ℕ → ℤ → Option ℕ
ofile_of s me (pos n) = s.ofile me n
ofile_of s me (negsuc n) = none

abbrev pub is_minus_one : ℤ → Bool
is_minus_one (pos n) = false
is_minus_one (negsuc n) = n == 0

-- The file of a mapping.
abbrev pub file_of : State → ℕ → Request → Option ℕ
file_of s me r = if anonymous r.flags then none else ofile_of s me r.fd

-- The two tests of a file's mode against the protection.
abbrev pub denied : State → Option ℕ → Request → Bool
denied s none r = false
denied s (some f) r =
    (prot_read r.prot && not (s.files f).readable)
    || (prot_write r.prot && not (s.files f).writable)

-- `filedup` of the file if there is one; its panic is `none`.
unfoldable pub dup : Option ℕ → State → Option State
dup none s = some s
dup (some f) s =
    if ltb (s.files f).ref 1
    then none
    else some
        (record s { files = update s.files f (record (s.files f) { ref = (s.files f).ref + 1 }) })

-- The entry that `mmap` writes.
abbrev pub area_of : ℕ → ℕ → Option ℕ → Request → Area
area_of me start f r = record {
  is_used = true;
  f = f;
  addr = start;
  length = length_of r.length;
  offset = r.offset;
  prot = r.prot;
  flags = r.flags;
  p = some me;
}

-- The loop that looks for a free entry, and writes to the first one.
unfoldable pub record_area : Area → State → State
record_area a s = elim (find_index (λ x. not x.is_used) s.areas) [
  | none ↦ s
  | some i ↦ record s { areas = modify s.areas i (λ _. a) }
]

-- The loop under MAP_POPULATE.
unfoldable pub populate_from : ℕ → ℕ → ℕ → Option ℕ → Request → State → Result
populate_from zero va me f r s = returns 0 s
populate_from (suc n) va me f r s =
    let (page, s') = kalloc s in
    elim page [
      | none ↦ fails s'
      | some a ↦
          if not (anonymous r.flags) && (elim f [ none ↦ true | some _ ↦ false ])
          then null_pointer
          else elim (mappages me va (a * page_size) (bit_or r.prot pte_u)
              (fill_page f r.offset a s')) [
                | failed s'' ↦ fails s''
                | remap ↦ panics
                | ok s'' ↦ populate_from n (va + page_size) me f r s''
              ]
    ]

-- The result of `mmap` from that of the loop.
abbrev pub finish : ℕ → Result → Result
finish start (returns _ s) = returns start s
finish start (fails s) = fails s
finish start panics = panics
finish start null_pointer = null_pointer

-- The three tests at the head of `mmap`.
abbrev pub refused : Request → Bool
refused r =
    not (r.addr % page_size == 0)
    || bad_length r.length
    || (not (anonymous r.flags) && is_minus_one r.fd)

-- `mmap` by the process in slot `me`.
unfoldable pub mmap : ℕ → Request → State → Result
mmap me r s =
    let start = (mmap_base + r.addr) % u32 in
    let f = file_of s me r in
    if refused r || denied s f r then fails s else (elim (dup f s) [
      | none ↦ panics
      | some s₁ ↦
          let s' = record_area (area_of me start f r) s₁ in
          if populate r.flags
          then finish start
              (populate_from (rounds start ((start + length_of r.length) % u32)) start me f r s')
          else returns start s'
    ])

-- The test of an entry against a faulting page.
abbrev pub covers : ℕ → ℕ → Area → Bool
covers me va a =
    a.is_used && same_proc a.p me && leb a.addr va && ltb va ((a.addr + a.length) % u32)

-- PGROUNDDOWN
abbrev pub round_down : ℕ → ℕ
round_down a = a / page_size * page_size

-- `curproc->killed = 1`
abbrev pub kill : ℕ → State → State
kill me s = record s { killed = update s.killed me true }

-- The file from which a fault in an area is filled.
abbrev pub backing : Area → Option ℕ
backing a = if anonymous a.flags then none else a.f

-- `file->off += PGSIZE`
abbrev pub skip_page : Option ℕ → State → State
skip_page none s = s
skip_page (some f) s = record s {
  files = update s.files f (record (s.files f) { off = (s.files f).off + page_size });
}

-- A file mapping whose file pointer is null.
abbrev pub no_file : Area → Bool
no_file a = not (anonymous a.flags) && (elim a.f [ none ↦ true | some _ ↦ false ])

-- The new page of the handler: cleared, and read from the file of a file mapping.
abbrev pub load_page : Area → ℕ → State → State
load_page a m s = skip_page (backing a) (fill_page (backing a) a.offset m s)

-- `perm`: the area's `prot`, which nothing masks, with PTE_U, and PTE_W after a write.
abbrev pub fault_perm : Area → Bool → ℕ
fault_perm a is_write =
    let perm = bit_or a.prot pte_u in if is_write then bit_or perm pte_w else perm

-- What the handler does for the area that covers the page.
unfoldable pub fault_in : ℕ → ℕ → Bool → Area → State → Result
fault_in me va is_write a s =
    if is_write && not (prot_write a.prot)
    then fails (kill me s)
    else (let (page, s') = kalloc s in
        elim page [
          | none ↦ fails (kill me s')
          | some m ↦
              if no_file a
              then null_pointer
              else elim (mappages me va (m * page_size) (fault_perm a is_write)
                  (load_page a m s')) [
                    | failed s'' ↦ fails (kill me s'')
                    | remap ↦ panics
                    | ok s'' ↦ returns 0 s''
                  ]
        ])

-- `page_fault_handler`; `fault_addr` is CR2 and `is_write` the bit of the error code.
unfoldable pub page_fault_handler : ℕ → ℕ → Bool → State → Result
page_fault_handler me fault_addr is_write s =
    let va = round_down fault_addr in
    elim (find_index (covers me va) s.areas) [
      | none ↦ fails (kill me s)
      | some i ↦ elim (get_elem? s.areas i) [
        | none ↦ fails (kill me s)
        | some a ↦ fault_in me va is_write a s
      ]
    ]

-- The loop of `munmap` that looks for the area. Its test assigns `curproc` to the field `p` of each
-- entry with the address that it comes to.
unfoldable pub claim : ℕ → ℕ → List Area → List Area
claim me addr [] = []
claim me addr (a ∷ more) =
    let rest = claim me addr more in
    if a.addr == addr
    then (record a { p = some me } ∷ (if a.is_used then more else rest))
    else a ∷ rest

-- The entry at which that loop stops.
abbrev pub is_target : ℕ → Area → Bool
is_target addr a = a.addr == addr && a.is_used

-- One round of the loop of `munmap` that frees the pages; the panic of `kfree` is `none`.
unfoldable pub unmap_page : ℕ → ℕ → State → Option State
unmap_page va me s = elim (lookup_pte s me va) [
  | none ↦ some s
  | some e ↦ elim (kfree (frame_of e) s) [ none ↦ none | some s' ↦ some (set_pte me va none s') ]
]

unfoldable pub unmap_from : ℕ → ℕ → ℕ → State → Option State
unmap_from zero va me s = some s
unmap_from (suc n) va me s = elim (unmap_page va me s) [
  | none ↦ none
  | some s' ↦ unmap_from n (va + page_size) me s'
]

-- `munmap`
unfoldable pub munmap : ℕ → ℕ → State → Result
munmap me addr s =
    if not (addr % page_size == 0)
    then returns 0 s
    else elim (find_index (is_target addr) s.areas) [
      | none ↦ fails (record s { areas = claim me addr s.areas })
      | some i ↦ elim (get_elem? s.areas i) [
        | none ↦ fails s
        | some a ↦
            elim (unmap_from (rounds a.addr ((a.addr + a.length) % u32)) a.addr me
              (record s { areas = claim me addr s.areas })) [
                | none ↦ panics
                | some s' ↦ returns 1 (record s' { areas = modify s'.areas i (λ _. empty_area) })
              ]
      ]
    ]
