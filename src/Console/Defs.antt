-- ===== src/Console/Defs.antt =====
-- `consoleintr` and `consoleread` of xv6-public/console.c, over the buffer of the line that is typed.
use os.Base.{
  ℕ, zero, suc, ◌+◌, ◌-◌, ◌%◌, ◌^◌, Bool, false, ◌&&◌, ◌||◌, not, List, [], ◌∷◌, ◌==◌, ltb,
  if◌then◌else◌,
}

abbrev pub u32 : ℕ
u32 = 2 ^ 32

-- INPUT_BUF
abbrev pub input_buf : ℕ
input_buf = 128

abbrev pub newline : ℕ
newline = 10

-- C(x)
abbrev pub ctrl : ℕ → ℕ
ctrl x = x - 64

-- `input`, with the array by position; the three indices are words that wrap round.
pub record Input : Type 0 where
  pub buf : ℕ → ℕ
  pub r : ℕ
  pub w : ℕ
  pub e : ℕ

abbrev pub store : ℕ → ℕ → (ℕ → ℕ) → ℕ → ℕ
store i v d j = if j == i then v else d j

-- `input.e - 1` and `input.e--`
abbrev pub before : ℕ → ℕ
before e = (e + u32 - 1) % u32

-- The loop for C('U'), with k rounds left.
unfoldable pub kill_line : ℕ → Input → Input
kill_line zero s = s
kill_line (suc k) s =
    let rest = kill_line k (record s { e = before s.e }) in
    if not (s.e == s.w) && not (s.buf (before s.e % input_buf) == newline) then rest else s

-- `input.buf[input.e++ % INPUT_BUF] = c`
abbrev pub put_key : ℕ → Input → Input
put_key c s = record s { buf = store (s.e % input_buf) c s.buf; e = (s.e + 1) % u32 }

-- `(c == '\r') ? '\n' : c`
abbrev pub translate : ℕ → ℕ
translate c = if c == 13 then newline else c

-- The end of a line: the readers may have it.
abbrev pub commit_line : ℕ → Input → Input
commit_line c s =
    if c == newline || c == ctrl 68 || s.e == (s.r + input_buf) % u32
    then record s { w = s.e }
    else s

-- The switch for one character.
unfoldable pub key : ℕ → Input → Input
key c s =
    if c == ctrl 80
    then s
    else if c == ctrl 85
    then kill_line ((s.e + u32 - s.w) % u32) s
    else if c == ctrl 72 || c == 127
    then (if not (s.e == s.w) then record s { e = before s.e } else s)
    else if not (c == 0) && ltb ((s.e + u32 - s.r) % u32) input_buf
    then commit_line (translate c) (put_key (translate c) s)
    else s

-- `consoleintr` for the characters that `getc` gives.
unfoldable pub consoleintr : List ℕ → Input → Input
consoleintr [] s = s
consoleintr (c ∷ cs) s = consoleintr cs (key c s)

-- Whether it calls `procdump` at its end.
unfoldable pub dumps : List ℕ → Bool
dumps [] = false
dumps (c ∷ cs) = c == ctrl 80 || dumps cs

-- How a call of `consoleread` comes to rest: with the bytes read, with -1, or asleep on `input.r` with
-- the bytes that it has so far.
pub data Read : Type 0 where
  bytes_read : List ℕ → Input → Read
  read_failed : Input → Read
  read_asleep : List ℕ → Input → Read

abbrev pub with_byte : ℕ → Read → Read
with_byte c (bytes_read bs s) = bytes_read (c ∷ bs) s
with_byte c (read_failed s) = read_failed s
with_byte c (read_asleep bs s) = read_asleep (c ∷ bs) s

-- The outer loop of `consoleread`, with n bytes to go of target.
unfoldable pub read_loop : Bool → ℕ → ℕ → Input → Read
read_loop killed target zero s = bytes_read [] s
read_loop killed target (suc n) s =
    let c = s.buf (s.r % input_buf) in
    let s' = record s { r = (s.r + 1) % u32 } in
    let rest = read_loop killed target n s' in
    if s.r == s.w
    then (if killed then read_failed s else read_asleep [] s)
    else if c == ctrl 68
    then (if ltb (suc n) target then bytes_read [] s else bytes_read [] s')
    else if c == newline
    then bytes_read (c ∷ []) s'
    else with_byte c rest

unfoldable pub consoleread : Bool → ℕ → Input → Read
consoleread killed n s = read_loop killed n n s
