-- ===== src/Sched/Defs.antt =====
-- The data of xv6-public_pa2/proc.h and proc.c: processes, the table and the weights.
use os.Base.{
  ℕ, ◌^◌, Bool, true, false, Option, List, [], ◌∷◌, get_or, ltb, leb, ◌==◌, if◌then◌else◌,
}

-- `enum procstate`
pub data ProcState : Type 0 where
  unused embryo sleeping runnable running zombie : ProcState

abbrev pub is_unused : ProcState → Bool
is_unused unused = true
is_unused _ = false

abbrev pub is_runnable : ProcState → Bool
is_runnable runnable = true
is_runnable _ = false

abbrev pub is_sleeping : ProcState → Bool
is_sleeping sleeping = true
is_sleeping _ = false

abbrev pub is_running : ProcState → Bool
is_running running = true
is_running _ = false

abbrev pub is_zombie : ProcState → Bool
is_zombie zombie = true
is_zombie _ = false

-- What a `void *chan` points at: nothing, a slot of the process table, or another object.
pub data Chan : Type 0 where
  null : Chan
  slot : ℕ → Chan
  object : ℕ → Chan

abbrev pub chan_eq : Chan → Chan → Bool
chan_eq null null = true
chan_eq (slot i) (slot j) = i == j
chan_eq (object a) (object b) = a == b
chan_eq _ _ = false

-- `struct proc`, less the trap frame, the context, the open files and the working directory.
-- A pointer to a process is its slot; the other pointers are addresses, 0 for the null pointer.
pub record Proc : Type 0 where
  pub sz : ℕ
  pub pgdir : ℕ
  pub kstack : ℕ
  pub state : ProcState
  pub pid : ℕ
  pub parent : Option ℕ
  pub chan : Chan
  pub killed : Bool
  pub name : List ℕ
  pub nice : ℕ
  pub runtime_d_weight : ℕ
  pub runtime : ℕ
  pub vruntime : ℕ
  pub time_slice : ℕ

-- `ptable.proc`, `nextpid` as a word, `initproc` and the field `proc` of the one processor that runs.
pub record System : Type 0 where
  pub procs : List Proc
  pub next_pid : ℕ
  pub init_proc : ℕ
  pub current : Option ℕ

-- `weight_table`
abbrev pub weight_table : List ℕ
weight_table =
    88761 ∷ 71755 ∷ 56483 ∷ 46273 ∷ 36291 ∷ 29154 ∷ 23254 ∷ 18705 ∷ 14949 ∷ 11916 ∷ 9548 ∷ 7620
    ∷ 6100 ∷ 4904 ∷ 3906 ∷ 3121 ∷ 2501 ∷ 1991 ∷ 1586 ∷ 1277 ∷ 1024 ∷ 820 ∷ 655 ∷ 526 ∷ 423 ∷ 335
    ∷ 272 ∷ 215 ∷ 172 ∷ 137 ∷ 110 ∷ 87 ∷ 70 ∷ 56 ∷ 45 ∷ 36 ∷ 29 ∷ 23 ∷ 18 ∷ 15 ∷ []

-- `weight_table[nice]`. A read past the table is undefined in C; 0 stands for it here.
unfoldable pub weight : ℕ → ℕ
weight nice = get_or weight_table nice 0

abbrev pub u32 : ℕ
u32 = 2 ^ 32

-- `a < b` on two words that C reads as `int`.
abbrev pub ltb_int : ℕ → ℕ → Bool
ltb_int a b =
    if leb (2 ^ 31) a
    then (if leb (2 ^ 31) b then ltb a b else true)
    else (if leb (2 ^ 31) b then false else ltb a b)
