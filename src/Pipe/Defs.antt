-- ===== src/Pipe/Defs.antt =====
-- `struct pipe` and its operations, in xv6-public/pipe.c.
use os.Base.{
  ℕ, zero, suc, ◌+◌, ◌%◌, ◌^◌, Bool, true, false, ◌&&◌, ◌||◌, not, List, [], ◌∷◌, ◌==◌,
  if◌then◌else◌,
}

abbrev pub u32 : ℕ
u32 = 2 ^ 32

-- PIPESIZE
abbrev pub pipe_size : ℕ
pipe_size = 512

-- `buffer` is the array `data` of bytes, by position. The two counters are words that wrap round.
pub record Pipe : Type 0 where
  pub buffer : ℕ → ℕ
  pub nread : ℕ
  pub nwrite : ℕ
  pub readopen : Bool
  pub writeopen : Bool

-- What `pipealloc` makes of its page, whose bytes are `junk`.
abbrev pub new_pipe : (ℕ → ℕ) → Pipe
new_pipe junk = record { buffer = junk; nread = 0; nwrite = 0; readopen = true; writeopen = true }

abbrev pub store : (ℕ → ℕ) → ℕ → ℕ → ℕ → ℕ
store d i v j = if j == i then v else d j

-- How a call of `pipewrite` comes to rest: it returns n, it fails with -1, or it sleeps on `nwrite`
-- with the bytes that are left. It wakes the readers in the first and the last case.
pub data Written : Type 0 where
  written : Pipe → Written
  write_failed : Pipe → Written
  write_asleep : List ℕ → Pipe → Written

-- `p->data[p->nwrite++ % PIPESIZE] = b`
abbrev pub put : ℕ → Pipe → Pipe
put b p = record p {
  buffer = store p.buffer (p.nwrite % pipe_size) b;
  nwrite = (p.nwrite + 1) % u32;
}

-- `p->nwrite == p->nread + PIPESIZE`
abbrev pub is_full : Pipe → Bool
is_full p = p.nwrite == (p.nread + pipe_size) % u32

-- `pipewrite` of a list of bytes until it returns or sleeps; woken up, it goes on as a call with
-- the bytes that are left. `killed` is that of the process.
unfoldable pub pipewrite : Bool → List ℕ → Pipe → Written
pipewrite killed [] p = written p
pipewrite killed (b ∷ bytes) p =
    let rest = pipewrite killed bytes (put b p) in
    if is_full p
    then (if not p.readopen || killed then write_failed p else write_asleep (b ∷ bytes) p)
    else rest

-- How a call of `piperead` comes to rest: with the bytes read, with -1, or asleep on `nread`. It
-- wakes the writers in the first case.
pub data Read : Type 0 where
  bytes_read : List ℕ → Pipe → Read
  read_failed : Pipe → Read
  read_asleep : Pipe → Read

-- The copying loop of `piperead`: the bytes and the pipe after it.
unfoldable pub read_from : ℕ → Pipe → List ℕ × Pipe
read_from zero p = ([], p)
read_from (suc n) p =
    let (rest, p') = read_from n (record p { nread = (p.nread + 1) % u32 }) in
    if p.nread == p.nwrite then ([], p) else (p.buffer (p.nread % pipe_size) ∷ rest, p')

-- `piperead` of at most n bytes until it returns or sleeps; woken up, it starts again.
unfoldable pub piperead : Bool → ℕ → Pipe → Read
piperead killed n p =
    if p.nread == p.nwrite && p.writeopen
    then (if killed then read_failed p else read_asleep p)
    else bytes_read (read_from n p).0 (read_from n p).1

-- `pipeclose` of one end. The second component tells that the page of the pipe is freed.
unfoldable pub pipeclose : Bool → Pipe → Pipe × Bool
pipeclose writable p =
    let p' = if writable then record p { writeopen = false } else record p { readopen = false } in
    (p', not p'.readopen && not p'.writeopen)
