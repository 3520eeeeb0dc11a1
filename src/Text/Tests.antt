-- ===== src/Text/Tests.antt =====
-- Copies in a memory at concrete inputs.
use os.Base.{◌≡◌, refl, arith, pos}
use os.Text.Defs.{Memory, memmove, strncmp}
use os.Text.Moves.{Copied, memmove-Copied}

abbrev count_up : Memory
count_up x = x

memmove_example : Copied 12 10 4 count_up (memmove 12 10 4 count_up)
memmove_example = memmove-Copied 12 10 4 count_up (omega arith)

strncmp_of_same : strncmp 5 5 3 count_up ≡ pos 0
unfolding strncmp
strncmp_of_same = refl
