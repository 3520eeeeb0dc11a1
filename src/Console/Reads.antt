-- ===== src/Console/Reads.antt =====
-- `consoleread` of xv6-public/console.c as a read of lines.
use os.Base.{
  ℕ, zero, suc, ◌+◌, ◌%◌, ◌≤◌, ◌<◌, ◌≡◌, refl, ap, ◌∙◌, inl, inr, Bool, true, false, List, [], ◌∷◌,
  ◌==◌, ltb, Bool-cases, arith, length,
}
use os.Console.Defs.{
  u32, input_buf, newline, ctrl, Input, Read, bytes_read, read_failed, read_asleep, with_byte,
  read_loop, consoleread,
}
use os.Console.Window.{window, window_same}
use os.Console.Lines.{Lines, Taken, taken, take_failed, take_asleep, after_byte, take_line}
use os.Console.Keys.{Shows}

-- A read of the ring and one of the lines that end in the same way.
abbrev pub Agree : Read → Taken → Type 0
Agree (bytes_read bs s) (taken bs' l) = (bs ≡ bs') × Shows s l
Agree (read_failed s) (take_failed l) = Shows s l
Agree (read_asleep bs s) (take_asleep bs' l) = (bs ≡ bs') × Shows s l
Agree r t = ⊥

with_byte-Agree :
    (c : ℕ) (r : Read) (t : Taken) → Agree r t → Agree (with_byte c r) (after_byte c t)
with_byte-Agree c (bytes_read bs s) (taken bs' l) (e, h) = (ap (λ b. c ∷ b) e, h)
with_byte-Agree c (read_failed s) (take_failed l) h = h
with_byte-Agree c (read_asleep bs s) (take_asleep bs' l) (e, h) = (ap (λ b. c ∷ b) e, h)
with_byte-Agree c r t h = absurd h

taken_one :
    (s : Input) (c : ℕ) (cs edit : List ℕ)
    → Shows s (record { done = c ∷ cs; edit = edit })
    → (s.buf (s.r % input_buf) ≡ c)
      × Shows (record s { r = (s.r + 1) % u32 }) (record { done = cs; edit = edit })
unfolding window
taken_one s c cs edit h = (
  heads h.done_is,
  record {
    word = omega arith;
    w_at = omega (arith, h.w_at);
    e_at = h.e_at;
    room = omega (arith, h.room);
    done_is =
        window_same (length cs) ((s.r + 1) % u32) (s.r + 1) s.buf (omega arith) ∙ tails h.done_is;
    edit_is = h.edit_is;
  },
)
  where
    heads : {a b : ℕ} {xs ys : List ℕ} → a ∷ xs ≡ b ∷ ys → a ≡ b
    heads e = cc

    tails : {a b : ℕ} {xs ys : List ℕ} → a ∷ xs ≡ b ∷ ys → xs ≡ ys
    tails e = cc

-- The ring has nothing to read just if the lines have nothing.
nothing : (r w : ℕ) → r < u32 → w ≡ (r + 0) % u32 → (r == w) ≡ true
nothing r w h e = ground arith

something :
    (r w n m : ℕ) → r < u32 → w ≡ (r + suc n) % u32 → suc n + m ≤ input_buf → (r == w) ≡ false
something r w n m h e room = ground arith

read_loop-Agree :
    (killed : Bool) (target n : ℕ) (done edit : List ℕ) (s : Input)
    → Shows s (record { done = done; edit = edit })
    → Agree (read_loop killed target n s) (take_line killed target n edit done)
unfolding read_loop take_line
read_loop-Agree killed target zero done edit s h = (refl, h)
read_loop-Agree killed target (suc n) [] edit s h =
    rw (nothing s.r s.w h.word h.w_at)
      (elim (Bool-cases killed) [ inl z ↦ rw (z) h | inr z ↦ rw (z) (refl, h) ])
read_loop-Agree killed target (suc n) (c ∷ cs) edit s h =
    let (first, h') = taken_one s c cs edit h in
    rw (something s.r s.w (length cs) (length edit) h.word h.w_at h.room, first)
      (elim (Bool-cases (c == ctrl 68)) [
        | inl z ↦ elim (Bool-cases (ltb (suc n) target)) [
          | inl y ↦ rw (z) (rw (y) (refl, h))
          | inr y ↦ rw (z) (rw (y) (refl, h'))
        ]
        | inr z ↦ elim (Bool-cases (c == newline)) [
          | inl y ↦ rw (z) (rw (y) (refl, h'))
          | inr y ↦ rw (z) (
              rw (y) (
                with_byte-Agree c (read_loop killed target n (record s { r = (s.r + 1) % u32 }))
                  (take_line killed target n edit cs)
                  (read_loop-Agree killed target n cs edit (record s { r = (s.r + 1) % u32 }) h')))
        ]
      ])

-- `consoleread` of the ring reads the line that the lines show, and leaves the rest of them.
pub consoleread-Agree :
    (killed : Bool) (n : ℕ) (s : Input) (l : Lines)
    → Shows s l
    → Agree (consoleread killed n s) (take_line killed n n l.edit l.done)
unfolding consoleread
consoleread-Agree killed n s l h = read_loop-Agree killed n n l.done l.edit s h
