-- ===== src/Console/Lines.antt =====
-- The console as lines: what is typed and may be read, and what is still being edited.
use os.Base.{
  ℕ, zero, suc, ◌+◌, Bool, ◌&&◌, ◌||◌, not, List, [], ◌∷◌, ◌++◌, ◌==◌, ltb, if◌then◌else◌, length,
}
use os.Console.Defs.{input_buf, newline, ctrl, translate}

-- The bytes that readers may have, and those of the line being edited.
pub record Lines : Type 0 where
  pub done : List ℕ
  pub edit : List ℕ

unfoldable pub drop_last : List ℕ → List ℕ
drop_last [] = []
drop_last (x ∷ []) = []
drop_last (x ∷ (y ∷ ys)) = x ∷ drop_last (y ∷ ys)

abbrev pub size : Lines → ℕ
size l = length l.done + length l.edit

-- A line ends at a newline, at the end of input, or when no byte more has room.
abbrev pub end_line : ℕ → Lines → Lines
end_line c l =
    if c == newline || c == ctrl 68 || size l == input_buf
    then record { done = l.done ++ l.edit; edit = [] }
    else l

abbrev pub type_key : ℕ → Lines → Lines
type_key c l =
    if c == ctrl 80
    then l
    else if c == ctrl 85
    then record l { edit = [] }
    else if c == ctrl 72 || c == 127
    then record l { edit = drop_last l.edit }
    else if not (c == 0) && ltb (size l) input_buf
    then end_line (translate c) (record l { edit = l.edit ++ (translate c ∷ []) })
    else l

unfoldable pub type_keys : List ℕ → Lines → Lines
type_keys [] l = l
type_keys (c ∷ cs) l = type_keys cs (type_key c l)

-- How a read of lines ends.
pub data Taken : Type 0 where
  taken : List ℕ → Lines → Taken
  take_failed : Lines → Taken
  take_asleep : List ℕ → Lines → Taken

abbrev pub after_byte : ℕ → Taken → Taken
after_byte c (taken bs l) = taken (c ∷ bs) l
after_byte c (take_failed l) = take_failed l
after_byte c (take_asleep bs l) = take_asleep (c ∷ bs) l

-- A read of at most n bytes more of target, up to the end of a line; an end of input counts as read
-- only at the start.
unfoldable pub take_line : Bool → ℕ → ℕ → List ℕ → List ℕ → Taken
take_line killed target zero edit done = taken [] (record { done = done; edit = edit })
take_line killed target (suc n) edit [] =
    if killed
    then take_failed (record { done = []; edit = edit })
    else take_asleep [] (record { done = []; edit = edit })
take_line killed target (suc n) edit (c ∷ cs) =
    let rest = take_line killed target n edit cs in
    if c == ctrl 68
    then (if ltb (suc n) target
        then taken [] (record { done = c ∷ cs; edit = edit })
        else taken [] (record { done = cs; edit = edit }))
    else if c == newline
    then taken (c ∷ []) (record { done = cs; edit = edit })
    else after_byte c rest
