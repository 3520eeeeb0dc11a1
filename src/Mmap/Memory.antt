-- ===== src/Mmap/Memory.antt =====
-- Physical pages, page tables and files, as pa3/xv6-public/kalloc.c, vm.c and file.c handle them.
use os.Base.{
  ℕ, ◌+◌, ◌-◌, ◌/◌, ◌%◌, ◌^◌, Bool, true, false, Option, none, some, List, [], ◌∷◌, min, ◌==◌, ltb,
  leb, ◌*◌, ◌||◌, not, if◌then◌else◌,
}
use Prim.Native.Nat.{bit_and, bit_or}

abbrev pub u32 : ℕ
u32 = 2 ^ 32

-- PGSIZE
abbrev pub page_size : ℕ
page_size = 4096

-- The bytes of a page, by their offset.
abbrev pub Page : Type 0
Page = ℕ → ℕ

-- KERNBASE and PHYSTOP
abbrev pub kern_base : ℕ
kern_base = 0x8000_0000

abbrev pub phys_top : ℕ
phys_top = 0xE00_0000

-- PTE_P, PTE_W and PTE_U
abbrev pub pte_p : ℕ
pte_p = 1

abbrev pub pte_w : ℕ
pte_w = 2

abbrev pub pte_u : ℕ
pte_u = 4

-- `word & mask`, as a condition.
abbrev pub has_bits : ℕ → ℕ → Bool
has_bits word mask = not (bit_and word mask == 0)

-- PROT_READ, PROT_WRITE, MAP_ANONYMOUS and MAP_POPULATE, tested in the words `prot` and `flags`.
abbrev pub prot_read : ℕ → Bool
prot_read prot = has_bits prot 1

abbrev pub prot_write : ℕ → Bool
prot_write prot = has_bits prot 2

abbrev pub anonymous : ℕ → Bool
anonymous flags = has_bits flags 1

abbrev pub populate : ℕ → Bool
populate flags = has_bits flags 2

-- A page table entry with PTE_P, the word.
abbrev pub Pte : Type 0
Pte = ℕ

-- The frame of PTE_ADDR.
abbrev pub frame_of : Pte → ℕ
frame_of e = e / page_size

-- A page table in its own frame. An entry without PTE_P is `none`.
pub record Table : Type 0 where
  pub table_frame : ℕ
  pub entries : ℕ → Option Pte

-- A page directory.
abbrev pub Pgdir : Type 0
Pgdir = ℕ → Option Table

-- A `struct file` of an inode: its bytes stand for what `readi` finds.
pub record File : Type 0 where
  pub ref : ℕ
  pub readable : Bool
  pub writable : Bool
  pub off : ℕ
  pub size : ℕ
  pub bytes : ℕ → ℕ

-- One of the 64 entries `marea`. Pointers to files and processes are their indices.
pub record Area : Type 0 where
  pub is_used : Bool
  pub f : Option ℕ
  pub addr : ℕ
  pub length : ℕ
  pub offset : ℕ
  pub prot : ℕ
  pub flags : ℕ
  pub p : Option ℕ

-- The address `end` at which the kernel's own memory ends, which the linker sets; the free list of
-- frames and its count (kalloc.c), the frames' contents, the page directory and the open
-- files of each process, whether it is killed, the files, and `marea`.
pub record State : Type 0 where
  pub kernel_end : ℕ
  pub freelist : List ℕ
  pub fmem_count : ℕ
  pub frames : ℕ → Page
  pub pgdirs : ℕ → Pgdir
  pub ofile : ℕ → ℕ → Option ℕ
  pub killed : ℕ → Bool
  pub files : ℕ → File
  pub areas : List Area

abbrev pub update {ℓ} : {A : Type ℓ} → (ℕ → A) → ℕ → A → ℕ → A
update f a v x = if x == a then v else f x

-- `memset(mem, b, PGSIZE)`
abbrev pub filled : ℕ → Page
filled b = λ _. b

-- P2V and V2P
abbrev pub p2v : ℕ → ℕ
p2v pa = (pa + kern_base) % u32

abbrev pub v2p : ℕ → ℕ
v2p v = (v + u32 - kern_base) % u32

-- The address in `kmem.freelist`: of the first free frame, or the null pointer.
abbrev pub list_head : List ℕ → ℕ
list_head [] = 0
list_head (a ∷ rest) = p2v (a * page_size)

-- A freed page: filled with 1, and `r->next` in its first four bytes.
abbrev pub freed_page : ℕ → Page
freed_page next i = if ltb i 4 then next / 2 ^ (8 * i) % 256 else 1

-- The test of `kfree`.
abbrev pub bad_page : ℕ → State → Bool
bad_page v s = not (v % page_size == 0) || ltb v s.kernel_end || leb phys_top (v2p v)

-- `kfree` of the frame `a`; its panic is `none`.
unfoldable pub kfree : ℕ → State → Option State
kfree a s =
    if bad_page (p2v (a * page_size)) s
    then none
    else some (record s {
      frames = update s.frames a (freed_page (list_head s.freelist));
      fmem_count = (s.fmem_count + 1) % u32;
      freelist = a ∷ s.freelist;
    })

-- `kalloc`
unfoldable pub kalloc : State → Option ℕ × State
kalloc s = elim s.freelist [
  | [] ↦ (none, record s { fmem_count = (s.fmem_count + u32 - 1) % u32 })
  | r ∷ rest ↦ (some r, record s { fmem_count = (s.fmem_count + u32 - 1) % u32; freelist = rest })
]

-- `memset(mem, 0, PGSIZE)` of a frame.
abbrev pub clear_frame : ℕ → State → State
clear_frame a s = record s { frames = update s.frames a (filled 0) }

-- PDX and PTX of a virtual address.
abbrev pub pdx : ℕ → ℕ
pdx va = va / 2 ^ 22 % 1024

abbrev pub ptx : ℕ → ℕ
ptx va = va / 2 ^ 12 % 1024

-- `walkpgdir(pgdir, va, 0)` and its test of PTE_P: the entry for `va`.
unfoldable pub lookup_pte : State → ℕ → ℕ → Option Pte
lookup_pte s me va = elim (s.pgdirs me (pdx va)) [ none ↦ none | some t ↦ t.entries (ptx va) ]

-- `walkpgdir(pgdir, va, 1)`: after it the page table for `va` is there, unless memory is short.
unfoldable pub walk_alloc : ℕ → ℕ → State → Bool × State
walk_alloc me va s = elim (s.pgdirs me (pdx va)) [
  | some t ↦ (true, s)
  | none ↦
      let (page, s') = kalloc s in
      elim page [
        | none ↦ (false, s')
        | some a ↦ (
          true,
          record (clear_frame a s') {
            pgdirs = update s'.pgdirs me (
                update (s'.pgdirs me) (pdx va)
                  (some (record { table_frame = a; entries = λ _. none })));
          },
        )
      ]
]

-- `*pte = …` for an entry whose page table is there.
unfoldable pub set_pte : ℕ → ℕ → Option Pte → State → State
set_pte me va e s = elim (s.pgdirs me (pdx va)) [
  | none ↦ s
  | some t ↦ record s {
    pgdirs =
        update s.pgdirs me (
          update (s.pgdirs me) (pdx va)
            (some (record t { entries = update t.entries (ptx va) e })));
  }
]

-- How a call on the page tables ends.
pub data Mapped : Type 0 where
  ok : State → Mapped
  failed : State → Mapped
  remap : Mapped

-- `mappages(pgdir, va, PGSIZE, pa, perm)` for an aligned `va`: one round of its loop.
unfoldable pub mappages : (me va pa perm : ℕ) → State → Mapped
mappages me va pa perm s =
    let (there, s') = walk_alloc me va s in
    if there
    then (elim (lookup_pte s' me va) [
      | some old ↦ remap
      | none ↦ ok (set_pte me va (some (bit_or (bit_or pa perm) pte_p)) s')
    ])
    else failed s'

-- `fileread(file, mem, PGSIZE)` of an inode's file into a frame, which moves the offset.
unfoldable pub fileread : ℕ → ℕ → State → State
fileread f a s =
    let file = s.files f in
    if file.readable
    then (let n = min page_size (file.size - file.off) in
        record s {
          frames =
              update s.frames a (λ i. if ltb i n then file.bytes (file.off + i) else s.frames a i);
          files = update s.files f (record file { off = file.off + n });
        })
    else s
