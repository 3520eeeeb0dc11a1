-- ===== src/Cache/Defs.antt =====
-- The functions of xv6-public/bio.c and sleeplock.c, and `iderw` as memide.c carries it out.
use os.Base.{
  ℕ, zero, suc, ◌+◌, ◌-◌, ◌%◌, ◌^◌, Bool, true, false, ◌&&◌, not, Option, none, some, List, [], ◌∷◌,
  ◌==◌, leb, if◌then◌else◌,
}

abbrev pub u32 : ℕ
u32 = 2 ^ 32

-- A `struct sleeplock`.
pub record Lock : Type 0 where
  pub locked : Bool
  pub pid : ℕ

unfoldable pub initsleeplock : Lock
initsleeplock = record { locked = false; pid = 0 }

-- One round of `acquiresleep` by a process; `none` when it sleeps.
unfoldable pub acquiresleep : ℕ → Lock → Option Lock
acquiresleep me l = if l.locked then none else some (record { locked = true; pid = me })

unfoldable pub releasesleep : Lock → Lock
releasesleep l = record { locked = false; pid = 0 }

unfoldable pub holdingsleep : ℕ → Lock → Bool
holdingsleep me l = l.locked && l.pid == me

-- The bytes of a block.
abbrev pub Block : Type 0
Block = ℕ → ℕ

-- A `struct buf`, with B_VALID and B_DIRTY as two fields.
pub record Buf : Type 0 where
  pub valid : Bool
  pub dirty : Bool
  pub dev : ℕ
  pub blockno : ℕ
  pub lock : Lock
  pub refcnt : ℕ
  pub contents : Block

-- `bcache.buf` by index, the linked list of buffers from `head.next` on, and the blocks of the disk.
pub record State : Type 0 where
  pub bufs : ℕ → Buf
  pub order : List ℕ
  pub disk : ℕ → Block

abbrev pub update {ℓ} : {A : Type ℓ} → (ℕ → A) → ℕ → A → ℕ → A
update f a v x = if x == a then v else f x

abbrev pub set_buf : ℕ → Buf → State → State
set_buf b v s = record s { bufs = update s.bufs b v }

-- The loop of `binit`, from buffer i on with n left: each is put in front.
unfoldable pub link_all : ℕ → ℕ → List ℕ → List ℕ
link_all zero i order = order
link_all (suc n) i order = link_all n (i + 1) (i ∷ order)

-- `binit` of NBUF buffers, which are zero before.
unfoldable pub binit : ℕ → (ℕ → Block) → State
unfolding initsleeplock link_all
binit nbuf disk = record {
  bufs = λ _. record {
    valid = false;
    dirty = false;
    dev = 0;
    blockno = 0;
    lock = initsleeplock;
    refcnt = 0;
    contents = λ _. 0;
  };
  order = link_all nbuf 0 [];
  disk = disk;
}

-- The first buffer of a list that passes a test, and the last one.
unfoldable pub find_first : (ℕ → Bool) → List ℕ → Option ℕ
find_first test [] = none
find_first test (b ∷ bs) = if test b then some b else find_first test bs

unfoldable pub find_last : (ℕ → Bool) → List ℕ → Option ℕ
find_last test [] = none
find_last test (b ∷ bs) = elim (find_last test bs) [
  | some c ↦ some c
  | none ↦ if test b then some b else none
]

-- `b->dev == dev && b->blockno == blockno`
abbrev pub is_block : ℕ → ℕ → Buf → Bool
is_block dev blockno b = b.dev == dev && b.blockno == blockno

-- `b->refcnt == 0 && (b->flags & B_DIRTY) == 0`
abbrev pub is_unused : Buf → Bool
is_unused b = b.refcnt == 0 && not b.dirty

-- What `bget` writes to the buffer that it recycles.
abbrev pub recycle : ℕ → ℕ → Buf → Buf
recycle dev blockno b = record b {
  dev = dev;
  blockno = blockno;
  valid = false;
  dirty = false;
  refcnt = 1;
}

-- How a call that takes a buffer ends: with the buffer locked, asleep on its lock with the reference
-- taken, or in a panic.
pub data Got : Type 0 where
  got : ℕ → State → Got
  waits : ℕ → State → Got
  panics : Got

-- `acquiresleep(&b->lock); return b`
unfoldable pub lock_buf : ℕ → ℕ → State → Got
lock_buf me b s = elim (acquiresleep me (s.bufs b).lock) [
  | none ↦ waits b s
  | some l ↦ got b (set_buf b (record (s.bufs b) { lock = l }) s)
]

unfoldable pub bget : ℕ → ℕ → ℕ → State → Got
bget me dev blockno s = elim (find_first (λ b. is_block dev blockno (s.bufs b)) s.order) [
  | some b ↦
      lock_buf me b (set_buf b (record (s.bufs b) { refcnt = ((s.bufs b).refcnt + 1) % u32 }) s)
  | none ↦ elim (find_last (λ b. is_unused (s.bufs b)) s.order) [
    | none ↦ panics
    | some b ↦ lock_buf me b (set_buf b (recycle dev blockno (s.bufs b)) s)
  ]
]

-- `iderw` on a disk of `disksize` blocks, which is device 1. A panic is `none`.
unfoldable pub iderw : ℕ → ℕ → ℕ → State → Option State
iderw disksize me b s =
    let buf = s.bufs b in
    if not (holdingsleep me buf.lock)
    then none
    else if buf.valid && not buf.dirty
    then none
    else if not (buf.dev == 1)
    then none
    else if leb disksize buf.blockno
    then none
    else if buf.dirty
    then some (record s {
      disk = update s.disk buf.blockno buf.contents;
      bufs = update s.bufs b (record buf { dirty = false; valid = true });
    })
    else some (set_buf b (record buf { contents = s.disk buf.blockno; valid = true }) s)

-- `bread` once `bget` has locked its buffer.
unfoldable pub read_buf : ℕ → ℕ → ℕ → State → Option State
read_buf disksize me b s = if (s.bufs b).valid then some s else iderw disksize me b s

abbrev pub read_locked : ℕ → ℕ → Got → Got
read_locked disksize me (got b s) = elim (read_buf disksize me b s) [
  | none ↦ panics
  | some s' ↦ got b s'
]
read_locked disksize me (waits b s) = waits b s
read_locked disksize me panics = panics

unfoldable pub bread : ℕ → ℕ → ℕ → ℕ → State → Got
bread disksize me dev blockno s = read_locked disksize me (bget me dev blockno s)

-- The rest of `bread` when the process wakes in `acquiresleep`.
unfoldable pub bread_woken : ℕ → ℕ → ℕ → State → Got
bread_woken disksize me b s = read_locked disksize me (lock_buf me b s)

unfoldable pub bwrite : ℕ → ℕ → ℕ → State → Option State
bwrite disksize me b s =
    if not (holdingsleep me (s.bufs b).lock)
    then none
    else iderw disksize me b (set_buf b (record (s.bufs b) { dirty = true }) s)

-- The list without a buffer.
abbrev pub without : ℕ → List ℕ → List ℕ
without b [] = []
without b (c ∷ cs) = let rest = without b cs in if c == b then rest else c ∷ rest

-- `brelse`; the buffer goes to the front when its last reference is given up.
unfoldable pub brelse : ℕ → ℕ → State → Option State
brelse me b s =
    let buf = s.bufs b in
    let left = (buf.refcnt + u32 - 1) % u32 in
    if not (holdingsleep me buf.lock)
    then none
    else some (record s {
      bufs = update s.bufs b (record buf { lock = releasesleep buf.lock; refcnt = left });
      order = if left == 0 then b ∷ without b s.order else s.order;
    })
