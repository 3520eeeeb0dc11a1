-- ===== src/Pipe/Tests.antt =====
-- A pipe at a concrete input.
use os.Base.{◌≡◌, refl, true, false, [], ◌∷◌, arith}
use os.Pipe.Defs.{Pipe, pipewrite, piperead, new_pipe, bytes_read, pipeclose, read_from}
use os.Pipe.Queue.{WritesInOrder, ReadsInOrder, pipewrite-WritesInOrder, piperead-ReadsInOrder}

-- The counters of this pipe are about to wrap round.
abbrev old_pipe : Pipe
old_pipe = record {
  buffer = λ i. i;
  nread = 0xFFFF_FFFE;
  nwrite = 0xFFFF_FFFF;
  readopen = true;
  writeopen = true;
}

pipewrite_example :
    WritesInOrder false (7 ∷ 8 ∷ []) old_pipe (pipewrite false (7 ∷ 8 ∷ []) old_pipe)
pipewrite_example =
    pipewrite-WritesInOrder false (7 ∷ 8 ∷ []) old_pipe (omega arith, omega arith, omega arith)

piperead_example : ReadsInOrder false 2 old_pipe (piperead false 2 old_pipe)
piperead_example = piperead-ReadsInOrder false 2 old_pipe (omega arith, omega arith, omega arith)

abbrev result : Pipe
result = record old_pipe { buffer = λ i. i }

read_of_one :
    (piperead false 2 old_pipe) ≡ bytes_read (510 ∷ []) (record result { nread = 0xFFFF_FFFF })
unfolding piperead read_from
read_of_one = refl

close_both : (pipeclose true (pipeclose false (new_pipe (λ _. 0))).0).1 ≡ true
unfolding pipeclose
close_both = refl
