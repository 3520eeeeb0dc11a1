-- ===== src/Console/Tests.antt =====
-- Runs of the console, and its theorems at them.
use os.Base.{ℕ, ◌≡◌, refl, true, false, List, [], ◌∷◌, arith}
use os.Console.Defs.{Input, kill_line, key, consoleintr, dumps, bytes_read, consoleread}
use os.Console.Window.{window}
use os.Console.Lines.{type_keys, drop_last, take_line}
use os.Console.Keys.{Shows}
use os.Console.Typing.{ShowsOpen, consoleintr-ShowsOpen}
use os.Console.Reads.{Agree, consoleread-Agree}
use os.Console.Sessions.{no_lines, line, consoleread-consoleintr}

-- An empty console whose indices are about to wrap round.
abbrev console : Input
console = record { buf = λ _. 0; r = 4294967294; w = 4294967294; e = 4294967294 }

console-Shows : Shows console no_lines
unfolding window
console-Shows = record {
  word = omega arith;
  w_at = omega arith;
  e_at = omega arith;
  room = omega arith;
  done_is = refl;
  edit_is = refl;
}

-- "ab", a backspace, "c", a newline, "d".
abbrev typing : List ℕ
typing = 97 ∷ 98 ∷ 8 ∷ 99 ∷ 13 ∷ 100 ∷ []

typing_test : type_keys typing no_lines ≡ record { done = 97 ∷ 99 ∷ 10 ∷ []; edit = 100 ∷ [] }
unfolding type_keys drop_last
typing_test = refl

dump_test : dumps (97 ∷ 16 ∷ []) ≡ true
unfolding dumps
dump_test = refl

wrap_test : (consoleintr typing console).e ≡ 2
unfolding consoleintr key kill_line
wrap_test = refl

consoleintr_example : ShowsOpen (consoleintr typing console) (type_keys typing no_lines)
consoleintr_example = consoleintr-ShowsOpen typing console no_lines (console-Shows, tt)

typed : Shows (consoleintr typing console) (type_keys typing no_lines)
typed = (consoleintr-ShowsOpen typing console no_lines (console-Shows, tt)).0

consoleread_example :
    Agree
      (consoleread false 2 (consoleintr typing console))
      (take_line false 2 2 (type_keys typing no_lines).edit (type_keys typing no_lines).done)
consoleread_example =
    consoleread-Agree false 2 (consoleintr typing console) (type_keys typing no_lines) typed

session_example :
    (s' : Input) × (consoleread false 10 (consoleintr (line (97 ∷ 98 ∷ [])) console)
      ≡ bytes_read (line (97 ∷ 98 ∷ [])) s')
    × Shows s' no_lines
session_example =
    consoleread-consoleintr false 10 (97 ∷ 98 ∷ []) console console-Shows (refl, (refl, tt))
      (omega arith) (omega arith)
