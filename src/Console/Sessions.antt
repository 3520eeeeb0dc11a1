-- ===== src/Console/Sessions.antt =====
-- A line that is typed and then read, xv6-public/console.c.
use os.Base.{
  ℕ, zero, suc, ◌+◌, ◌<◌, ◌≡◌, refl, ap, ◌∙◌, subst, Bool, true, false, ◌&&◌, ◌||◌, not, List, [],
  ◌∷◌, ◌++◌, ◌==◌, ltb, arith, length, length-append, append_assoc, All,
}
use os.Console.Defs.{input_buf, newline, ctrl, Input, Read, bytes_read, consoleintr, consoleread}
use os.Console.Lines.{Lines, type_key, type_keys, taken, take_line}
use os.Console.Keys.{Shows}
use os.Console.Typing.{consoleintr-ShowsOpen}
use os.Console.Reads.{Agree, consoleread-Agree}

-- The characters that stand for themselves.
abbrev pub is_plain : ℕ → Bool
is_plain c = not (
    c == 0
    || c == ctrl 68
    || c == ctrl 72
    || c == newline
    || c == 13
    || c == ctrl 80
    || c == ctrl 85
    || c == 127)

abbrev pub IsPlain : ℕ → Type 0
IsPlain c = is_plain c ≡ true

abbrev pub no_lines : Lines
no_lines = record { done = []; edit = [] }

type_plain :
    (c : ℕ) (edit : List ℕ)
    → IsPlain c
    → length edit + 1 < input_buf
    → type_key c (record { done = []; edit = edit }) ≡ record { done = []; edit = edit ++ (c ∷ []) }
type_plain c edit plain room =
    let longer : length (edit ++ (c ∷ [])) ≡ length edit + 1 = length-append edit (c ∷ []) in
    let (t1, t2, t3, t4, t5, t6) = tests (length edit) (length (edit ++ (c ∷ []))) longer room in
    rw (t1, t2, t3, t4, t5, t6) refl
  where
    tests :
        (m n : ℕ)
        → n ≡ m + 1
        → m + 1 < input_buf
        → ((c == ctrl 80) ≡ false)
          × ((c == ctrl 85) ≡ false)
          × ((c == ctrl 72 || c == 127) ≡ false)
          × ((not (c == 0) && ltb (0 + m) input_buf) ≡ true)
          × ((c == 13) ≡ false)
          × ((c == newline || c == ctrl 68 || 0 + n == input_buf) ≡ false)
    tests m n e h =
        (ground arith, ground arith, ground arith, ground arith, ground arith, ground arith)

-- The line that ends with a newline.
abbrev pub line : List ℕ → List ℕ
line cs = cs ++ (newline ∷ [])

type_line :
    (cs edit : List ℕ)
    → All IsPlain cs
    → length edit + length cs < input_buf
    → type_keys (line cs) (record { done = []; edit = edit })
      ≡ record { done = edit ++ line cs; edit = [] }
unfolding type_keys
type_line [] edit plain room =
    let free : ltb (0 + length edit) input_buf ≡ true = less (length edit) (omega arith) in
    rw (free) refl
  where
    less : (m : ℕ) → m < input_buf → ltb (0 + m) input_buf ≡ true
    less m h = ground arith
type_line (c ∷ cs) edit (p, ps) room =
    ap (type_keys (line cs)) (type_plain c edit p (omega arith))
    ∙ type_line cs (edit ++ (c ∷ [])) ps (rw (length-append edit (c ∷ [])) (omega arith))
    ∙ ap (λ l. record { done = l; edit = [] }) (append_assoc edit (c ∷ []) (line cs))

take_typed :
    (killed : Bool) (target n : ℕ) (cs edit : List ℕ)
    → All IsPlain cs
    → length cs < n
    → take_line killed target n edit (line cs) ≡ taken (line cs) (record { done = []; edit = edit })
unfolding take_line
take_typed killed target zero cs edit plain h = absurd (omega arith)
take_typed killed target (suc n) [] edit plain h = refl
take_typed killed target (suc n) (c ∷ cs) edit (p, ps) h =
    let (t1, t2) = tests c p in
    rw (t1, t2, take_typed killed target n cs edit ps (omega arith)) refl
  where
    tests : (c : ℕ) → IsPlain c → ((c == ctrl 68) ≡ false) × ((c == newline) ≡ false)
    tests c p = (ground arith, ground arith)

-- On an empty console, a line of plain characters that fits in the buffer with its newline is what a
-- read for at least as many bytes returns, and the console is empty again.
pub consoleread-consoleintr :
    (killed : Bool) (n : ℕ) (cs : List ℕ) (s : Input)
    → Shows s no_lines
    → All IsPlain cs
    → length cs < input_buf
    → length cs < n
    → (s' : Input) × (consoleread killed n (consoleintr (line cs) s) ≡ bytes_read (line cs) s')
      × Shows s' no_lines
consoleread-consoleintr killed n cs s empty plain fits wanted =
    let typed = (consoleintr-ShowsOpen (line cs) s no_lines (empty, tt)).0 in
    let shown : Shows (consoleintr (line cs) s) (record { done = line cs; edit = [] }) =
      subst (Shows (consoleintr (line cs) s)) (type_line cs [] plain (omega arith)) typed in
    ends (consoleread killed n (consoleintr (line cs) s)) (
      subst (Agree (consoleread killed n (consoleintr (line cs) s)))
        (take_typed killed n n cs [] plain wanted)
        (consoleread-Agree killed n (consoleintr (line cs) s) (record { done = line cs; edit = [] })
          shown))
  where
    ends :
        (r : Read)
        → Agree r (taken (line cs) no_lines)
        → (s' : Input) × (r ≡ bytes_read (line cs) s') × Shows s' no_lines
    ends (bytes_read bs s') (e, h) = (s', ap (λ b. bytes_read b s') e, h)
    ends r h = absurd h
