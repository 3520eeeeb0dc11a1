-- ===== src/Console/Typing.antt =====
-- `key` and `consoleintr` of xv6-public/console.c as steps on lines.
use os.Base.{
  ℕ, zero, suc, ◌+◌, ◌-◌, ◌%◌, ◌≤◌, ◌<◌, ◌≡◌, ◌≢◌, refl, sym, ap, ◌∙◌, subst, inl, inr, true, false,
  ◌&&◌, ◌||◌, not, List, [], ◌∷◌, ◌++◌, ◌==◌, ltb, if◌then◌else◌, Bool-cases, arith, length, All,
}
use os.Console.Defs.{
  u32, input_buf, newline, ctrl, Input, before, kill_line, translate, key, consoleintr,
}
use os.Console.Window.{window}
use os.Console.Lines.{Lines, drop_last, size, end_line, type_key, type_keys}
use os.Console.Keys.{Shows, IsOpen, length-drop_last, put_key-Shows, commit_line-Shows, back-Shows}

All-drop_last : (P : ℕ → Type 0) (xs : List ℕ) → All P xs → All P (drop_last xs)
unfolding drop_last
All-drop_last P [] h = tt
All-drop_last P (x ∷ []) h = tt
All-drop_last P (x ∷ (y ∷ ys)) h = (h.0, All-drop_last P (y ∷ ys) h.1)

All-snoc : (P : ℕ → Type 0) (xs : List ℕ) (c : ℕ) → All P xs → P c → All P (xs ++ (c ∷ []))
All-snoc P [] c h p = (p, tt)
All-snoc P (x ∷ xs) c h p = (h.0, All-snoc P xs c h.1 p)

-- The byte before the edit index.
last_of_window :
    (P : ℕ → Type 0) (k pos : ℕ) (d : ℕ → ℕ)
    → All P (window (suc k) pos d)
    → P (d ((pos + k) % input_buf))
unfolding window
last_of_window P zero pos d h =
    let here : pos ≡ pos + 0 = omega arith in subst (λ p. P (d (p % input_buf))) here h.0
last_of_window P (suc k) pos d h =
    let there : pos + 1 + k ≡ pos + suc k = omega arith in
    subst (λ p. P (d (p % input_buf))) there (last_of_window P k (pos + 1) d h.1)

unmoved :
    (e w n r m : ℕ)
    → w ≡ (r + m) % u32
    → e ≡ (w + n) % u32
    → m + n ≤ input_buf
    → (e == w) ≡ (n == 0)
unmoved e w n r m h h' room = ground arith

differ : (a b : ℕ) → a ≢ b → (a == b) ≡ false
differ a b ne = ground arith

positive : (n : ℕ) → suc n ≢ 0
positive n e = omega arith

fits : (c n : ℕ) → not (c == 0) && ltb n input_buf ≡ true → n < input_buf
fits c n e = ground arith

kill_line-Shows :
    (n : ℕ) (s : Input) (done edit : List ℕ)
    → length edit ≡ n
    → Shows s (record { done = done; edit = edit })
    → All (λ c. c ≢ newline) edit
    → Shows (kill_line n s) (record { done = done; edit = [] })
unfolding kill_line
kill_line-Shows zero s done [] e h open_line = h
kill_line-Shows zero s done (x ∷ xs) e h open_line = absurd (omega (arith, e))
kill_line-Shows (suc n) s done [] e h open_line = absurd (omega (arith, e))
kill_line-Shows (suc n) s done (x ∷ xs) e h open_line =
    let moved : (s.e == s.w) ≡ false =
      unmoved s.e s.w (length (x ∷ xs)) s.r (length done) h.w_at h.e_at h.room
      ∙ differ (suc (length xs)) 0 (λ q. positive (length xs) q) in
    let last : s.buf ((s.w + length xs) % input_buf) ≢ newline =
      last_of_window (λ c. c ≢ newline) (length xs) s.w s.buf
        (subst (All (λ c. c ≢ newline)) (sym h.edit_is) open_line) in
    let at : before s.e % input_buf ≡ (s.w + length xs) % input_buf =
      omega (arith, h.e_at, h.w_at) in
    let inside : (s.buf (before s.e % input_buf) == newline) ≡ false =
      differ (s.buf (before s.e % input_buf)) newline (λ q. last (ap s.buf (sym at) ∙ q)) in
    rw (moved) (
      rw (inside) (
        kill_line-Shows n (record s { e = before s.e }) done (drop_last (x ∷ xs))
          (length-drop_last x xs ∙ omega (arith, e)) (back-Shows x xs h refl)
          (All-drop_last (λ c. c ≢ newline) (x ∷ xs) open_line)))

-- The state after a key: the lines that it shows, with no newline in the line being edited.
abbrev pub ShowsOpen : Input → Lines → Type 0
ShowsOpen s l = Shows s l × IsOpen l

translated : (c : ℕ) → (c == newline) ≡ false → c ≢ newline
translated c z e = ground arith

end_line-IsOpen :
    (c : ℕ) (l : Lines) → IsOpen l → IsOpen (end_line c (record l { edit = l.edit ++ (c ∷ []) }))
end_line-IsOpen c l h = elim (Bool-cases (c == newline)) [
  | inl z ↦ rw (z) tt
  | inr z ↦
      elim (Bool-cases (c == ctrl 68 || length l.done + length (l.edit ++ (c ∷ [])) == input_buf)) [
        | inl y ↦ rw (z, y) tt
        | inr y ↦ rw (z, y) (All-snoc (λ c. c ≢ newline) l.edit c h (translated c z))
      ]
]

key-ShowsOpen : (c : ℕ) (s : Input) (l : Lines) → ShowsOpen s l → ShowsOpen (key c s) (type_key c l)
unfolding key drop_last
key-ShowsOpen c s l (h, open_line) = elim (Bool-cases (c == ctrl 80)) [
  | inl z ↦ rw (z) (h, open_line)
  | inr z ↦ elim (Bool-cases (c == ctrl 85)) [
    | inl z1 ↦ rw (z, z1) (killed, tt)
    | inr z1 ↦ elim (Bool-cases (c == ctrl 72 || c == 127)) [
      | inl z2 ↦ rw (z, z1, z2) (back l.edit refl)
      | inr z2 ↦ elim (Bool-cases (not (c == 0) && ltb (size l) input_buf)) [
        | inl z3 ↦
            rw (z, z1, z2, room, z3)
              (
                commit_line-Shows (translate c) (put_key-Shows (translate c) h (small z3)),
                end_line-IsOpen (translate c) l open_line,
              )
        | inr z3 ↦ rw (z, z1, z2, room, z3) (h, open_line)
      ]
    ]
  ]
]
  where
    count : (s.e + u32 - s.w) % u32 ≡ length l.edit
    count = omega (arith, h.e_at, h.w_at, h.room)

    killed : Shows (kill_line ((s.e + u32 - s.w) % u32) s) (record l { edit = [] })
    killed = rw (count) (kill_line-Shows (length l.edit) s l.done l.edit refl h open_line)

    room : (s.e + u32 - s.r) % u32 ≡ size l
    room = omega (arith, h.e_at, h.w_at, h.room, h.word)

    small : not (c == 0) && ltb (size l) input_buf ≡ true → size l < input_buf
    small z = fits c (size l) z

    back :
        (edit : List ℕ)
        → l.edit ≡ edit
        → ShowsOpen
            (if not (s.e == s.w) then record s { e = before s.e } else s)
            (record l { edit = drop_last l.edit })
    back [] e =
        let still : (s.e == s.w) ≡ true =
          unmoved s.e s.w (length l.edit) s.r (length l.done) h.w_at h.e_at h.room
          ∙ ap (λ m. length m == 0) e in
        rw (still) (
          subst (λ x. ShowsOpen s (record { done = l.done; edit = x })) (e ∙ sym (ap drop_last e))
            (h, open_line))
    back (x ∷ xs) e =
        let moved : (s.e == s.w) ≡ false =
          unmoved s.e s.w (length l.edit) s.r (length l.done) h.w_at h.e_at h.room
          ∙ ap (λ m. length m == 0) e
          ∙ differ (suc (length xs)) 0 (λ q. positive (length xs) q) in
        rw (moved) (back-Shows x xs h e, All-drop_last (λ c. c ≢ newline) l.edit open_line)

-- If the ring shows lines, and the one being edited has no newline, then after `consoleintr` for
-- any characters it shows what the keys make of these lines, again with no newline in the one
-- being edited.
pub consoleintr-ShowsOpen :
    (cs : List ℕ) (s : Input) (l : Lines)
    → ShowsOpen s l
    → ShowsOpen (consoleintr cs s) (type_keys cs l)
unfolding consoleintr type_keys
consoleintr-ShowsOpen [] s l h = h
consoleintr-ShowsOpen (c ∷ cs) s l h =
    consoleintr-ShowsOpen cs (key c s) (type_key c l) (key-ShowsOpen c s l h)
