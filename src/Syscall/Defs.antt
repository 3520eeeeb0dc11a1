-- ===== src/Syscall/Defs.antt =====
-- The functions of xv6-public/syscall.c that fetch arguments, and the system calls of sysfile.c on
-- file descriptors.
use os.Base.{
  ℕ, zero, suc, ◌+◌, ◌-◌, ◌*◌, ◌%◌, ◌^◌, ℤ, pos, minus_one, Bool, ◌||◌, Option, none, some, List,
  [], ◌∷◌, ◌==◌, ltb, leb, if◌then◌else◌, get_elem?, set,
}
use os.Files.Defs.{Table, Closing, filedup, fileclose}

abbrev pub u32 : ℕ
u32 = 2 ^ 32

-- The sign bit of an `int` that is given by its 32 bits.
abbrev pub is_negative : ℕ → Bool
is_negative w = leb (2 ^ 31) w

-- What these calls read of a `struct proc`: `sz`, `tf->esp`, the bytes of its memory, and `ofile`
-- with each open file by its index in the table of files.
pub record Proc : Type 0 where
  pub sz : ℕ
  pub esp : ℕ
  pub memory : ℕ → ℕ
  pub ofile : List (Option ℕ)

-- `*(int*)(addr)`
abbrev pub word_at : (ℕ → ℕ) → ℕ → ℕ
word_at memory a =
    memory a + 2 ^ 8 * memory (a + 1) + 2 ^ 16 * memory (a + 2) + 2 ^ 24 * memory (a + 3)

-- -1 is `none` here and below.
unfoldable pub fetchint : ℕ → Proc → Option ℕ
fetchint addr p =
    if leb p.sz addr || ltb p.sz ((addr + 4) % u32) then none else some (word_at p.memory addr)

-- The loop of `fetchstr` from s on, with k bytes left before `ep`; n are behind it.
unfoldable pub scan_string : ℕ → ℕ → ℕ → (ℕ → ℕ) → Option ℕ
scan_string zero s n memory = none
scan_string (suc k) s n memory =
    let rest = scan_string k (s + 1) (n + 1) memory in if memory s == 0 then some n else rest

-- `fetchstr`: the pointer that it sets and the length that it returns.
unfoldable pub fetchstr : ℕ → Proc → Option (ℕ × ℕ)
fetchstr addr p =
    if leb p.sz addr
    then none
    else elim (scan_string (p.sz - addr) addr 0 p.memory) [ none ↦ none | some n ↦ some (addr, n) ]

unfoldable pub argint : ℕ → Proc → Option ℕ
argint n p = fetchint ((p.esp + 4 + 4 * n) % u32) p

-- `argptr`: the pointer that it sets.
unfoldable pub argptr : ℕ → ℕ → Proc → Option ℕ
argptr n size p = elim (argint n p) [
  | none ↦ none
  | some i ↦ if is_negative size || leb p.sz i || ltb p.sz ((i + size) % u32) then none else some i
]

unfoldable pub argstr : ℕ → Proc → Option (ℕ × ℕ)
argstr n p = elim (argint n p) [ none ↦ none | some addr ↦ fetchstr addr p ]

-- NOFILE
abbrev pub nofile : ℕ
nofile = 16

-- `argfd`: the descriptor and its file.
unfoldable pub argfd : ℕ → Proc → Option (ℕ × ℕ)
argfd n p = elim (argint n p) [
  | none ↦ none
  | some fd ↦
      if is_negative fd || leb nofile fd
      then none
      else elim (get_elem? p.ofile fd) [ some (some f) ↦ some (fd, f) | _ ↦ none ]
]

-- The loop of `fdalloc` over the entries from fd on.
unfoldable pub find_unused : ℕ → List (Option ℕ) → Option ℕ
find_unused fd [] = none
find_unused fd (none ∷ fs) = some fd
find_unused fd (some f ∷ fs) = find_unused (fd + 1) fs

unfoldable pub fdalloc : ℕ → Proc → Option (ℕ × Proc)
fdalloc f p = elim (find_unused 0 p.ofile) [
  | none ↦ none
  | some fd ↦ some (fd, record p { ofile = set p.ofile fd (some f) })
]

-- A process and the table of open files.
pub record Sys : Type 0 where
  pub proc : Proc
  pub files : Table

-- `sys_dup`; a panic is `none`.
unfoldable pub sys_dup : Sys → Option (ℤ × Sys)
sys_dup s = elim (argfd 0 s.proc) [
  | none ↦ some (minus_one, s)
  | some (_, f) ↦ elim (fdalloc f s.proc) [
    | none ↦ some (minus_one, s)
    | some (fd, p) ↦ elim (filedup f s.files) [
      | none ↦ none
      | some t ↦ some (pos fd, record { proc = p; files = t })
    ]
  ]
]

-- `sys_close`, with what `fileclose` has to do besides.
unfoldable pub sys_close : Sys → Option (ℤ × Option Closing × Sys)
sys_close s = elim (argfd 0 s.proc) [
  | none ↦ some (minus_one, none, s)
  | some (fd, f) ↦ elim (fileclose f s.files) [
    | none ↦ none
    | some (closing, t) ↦ some (
      pos 0,
      some closing,
      record { proc = record s.proc { ofile = set s.proc.ofile fd none }; files = t },
    )
  ]
]

-- What `sys_read` and `sys_write` hand to `fileread` and `filewrite`: the file, the buffer, its size.
unfoldable pub io_request : Proc → Option (ℕ × ℕ × ℕ)
io_request p = elim (argfd 0 p) [
  | none ↦ none
  | some (_, f) ↦ elim (argint 2 p) [
    | none ↦ none
    | some n ↦ elim (argptr 1 n p) [ none ↦ none | some a ↦ some (f, a, n) ]
  ]
]
