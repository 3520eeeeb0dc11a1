-- ===== src/Syscall/Tests.antt =====
-- Runs of system calls, and the theorems at them.
use os.Base.{
  ℕ, zero, suc, ◌<◌, ◌≡◌, ◌≢◌, ◌⊎◌, ◌==◌, refl, pos, true, none, some, [], ◌∷◌, get_elem?,
  if◌then◌else◌, arith,
}
use os.Files.Defs.{File, fd_pipe, still_open}
use os.Syscall.Defs.{
  Proc, Sys, fetchint, scan_string, fetchstr, argint, argptr, argstr, argfd, find_unused, sys_dup,
  sys_close, io_request,
}
use os.Syscall.Args.{Points, argptr-Points}
use os.Syscall.Strings.{FetchedString, argstr_lem}
use os.Syscall.Requests.{IsSafeRequest, io_request-IsSafeRequest}
use os.Syscall.Descriptors.{with_memory, sys_close-sys_dup}

-- A stack pointer of 80: the arguments 0, 40 and 5 stand at 84, and the text "ab" at 40.
abbrev memory : ℕ → ℕ
memory a =
    if a == 88 then 40 else if a == 92 then 5 else if a == 40 then 97 else if a == 41 then 98 else 0

-- The same with 1 as the first argument.
abbrev memory_1 : ℕ → ℕ
memory_1 a = if a == 84 then 1 else memory a

abbrev proc : Proc
proc = record {
  sz = 100;
  esp = 80;
  memory = memory;
  ofile =
      some 0
      ∷ none
      ∷ none
      ∷ none
      ∷ none
      ∷ none
      ∷ none
      ∷ none
      ∷ none
      ∷ none
      ∷ none
      ∷ none
      ∷ none
      ∷ none
      ∷ none
      ∷ none
      ∷ [];
}

abbrev pipe_end : File
pipe_end = record { type = fd_pipe 4; ref = 1; writable = true }

abbrev sys : Sys
sys = record { proc = proc; files = pipe_end ∷ [] }

string_test : argstr 1 proc ≡ some (40, 2)
unfolding argstr argint fetchint fetchstr scan_string
string_test = refl

request_test : io_request proc ≡ some (0, 40, 5)
unfolding io_request argfd argint fetchint argptr
request_test = refl

too_long_test : argptr 1 61 proc ≡ none
unfolding argint fetchint argptr
too_long_test = refl

argptr_example : Points 1 60 proc (argptr 1 60 proc)
argptr_example = argptr-Points 1 60 proc (omega arith)

argstr_example :
    ((argint 1 proc ≡ none) × (argstr 1 proc ≡ none))
    ⊎ ((addr : ℕ) × (argint 1 proc ≡ some addr) × FetchedString addr proc (argstr 1 proc))
argstr_example = argstr_lem 1 proc

io_request_example : IsSafeRequest proc (io_request proc)
io_request_example = io_request-IsSafeRequest proc (omega arith)

used_below : (i : ℕ) → i < 1 → get_elem? proc.ofile i ≢ some none
used_below zero h e = cc
used_below (suc i) h e = omega arith

sys_dup_example :
    (s' : Sys) × (sys_dup sys ≡ some (pos 1, s'))
    × (get_elem? s'.proc.ofile 1 ≡ some (some 0))
    × (get_elem? s'.files 0 ≡ some (record pipe_end { ref = 2 }))
    × (sys_close (with_memory memory_1 s')
        ≡ some (pos 0, some still_open, with_memory memory_1 sys))
unfolding argint fetchint find_unused
sys_dup_example =
    sys_close-sys_dup sys 0 0 1 pipe_end memory_1 (refl, omega arith, refl) refl refl used_below
      refl (λ e. omega arith) refl
