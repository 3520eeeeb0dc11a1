-- ===== src/Console/Keys.antt =====
-- The keys of xv6-public/console.c as steps on lines.
use os.Base.{
  ℕ, ap₂, zero, suc, ◌+◌, ◌%◌, ◌≤◌, ◌<◌, ◌≡◌, ◌≢◌, refl, sym, ap, ◌∙◌, inl, inr, ◌||◌, List, [],
  ◌∷◌, ◌++◌, ◌==◌, Bool-cases, arith, length, length-append, All,
}
use os.Console.Defs.{u32, input_buf, newline, ctrl, Input, store, before, put_key, commit_line}
use os.Console.Window.{window, window_same, window-append, window-store, store_eq}
use os.Console.Lines.{Lines, drop_last, size, end_line}

-- The ring holds the bytes of the lines, between its indices.
pub record Shows (s : Input) (l : Lines) : Type 0 where
  pub word : s.r < u32
  pub w_at : s.w ≡ (s.r + length l.done) % u32
  pub e_at : s.e ≡ (s.w + length l.edit) % u32
  pub room : size l ≤ input_buf
  pub done_is : window (length l.done) s.r s.buf ≡ l.done
  pub edit_is : window (length l.edit) s.w s.buf ≡ l.edit

-- The line being edited has no newline.
abbrev pub IsOpen : Lines → Type 0
IsOpen l = All (λ c. c ≢ newline) l.edit

pub length-drop_last : (x : ℕ) (xs : List ℕ) → length (drop_last (x ∷ xs)) ≡ length xs
unfolding drop_last
length-drop_last x [] = refl
length-drop_last x (y ∷ ys) = ap suc (length-drop_last y ys)

drop_last-window : (k pos : ℕ) (d : ℕ → ℕ) → drop_last (window (suc k) pos d) ≡ window k pos d
unfolding drop_last window
drop_last-window zero pos d = refl
drop_last-window (suc k) pos d = ap (λ l. d (pos % input_buf) ∷ l) (drop_last-window k (pos + 1) d)

-- A byte put at the end.
window-snoc :
    (k pos i c : ℕ) (d : ℕ → ℕ)
    → k < input_buf
    → i ≡ (pos + k) % input_buf
    → window (k + 1) pos (store i c d) ≡ window k pos d ++ (c ∷ [])
unfolding window
window-snoc k pos i c d small at =
    window-append k 1 pos (store i c d)
    ∙ rw
        (
          window-store k k pos i c d (omega arith) small at,
          store_eq d i ((pos + k) % input_buf) c (sym at),
        )
        refl

length-snoc : (xs : List ℕ) (c : ℕ) → length (xs ++ (c ∷ [])) ≡ length xs + 1
length-snoc xs c = length-append xs (c ∷ [])

pub put_key-Shows :
    (c : ℕ) {s : Input} {l : Lines}
    → Shows s l
    → size l < input_buf
    → Shows (put_key c s) (record l { edit = l.edit ++ (c ∷ []) })
put_key-Shows c {s} {l} h small =
    let longer : length (l.edit ++ (c ∷ [])) ≡ length l.edit + 1 = length-snoc l.edit c in
    let at : s.e % input_buf ≡ (s.w + length l.edit) % input_buf = omega (arith, h.e_at) in
    let at' : s.e % input_buf ≡ (s.r + (length l.done + length l.edit)) % input_buf =
      omega (arith, h.e_at, h.w_at) in
    record {
      word = h.word;
      w_at = h.w_at;
      e_at = rw (longer) (omega (arith, h.e_at));
      room = rw (longer) (omega arith);
      done_is =
          window-store (length l.done) (length l.done + length l.edit) s.r (s.e % input_buf) c s.buf
            (omega arith) small at'
          ∙ h.done_is;
      edit_is =
          rw (longer) (window-snoc (length l.edit) s.w (s.e % input_buf) c s.buf (omega arith) at)
          ∙ ap (λ xs. xs ++ (c ∷ [])) h.edit_is;
    }

committed-Shows :
    {s : Input} {l : Lines}
    → Shows s l
    → Shows (record s { w = s.e }) (record { done = l.done ++ l.edit; edit = [] })
unfolding window
committed-Shows {s} {l} h =
    let sum : length (l.done ++ l.edit) ≡ length l.done + length l.edit =
      length-append l.done l.edit in
    record {
      word = h.word;
      w_at = rw (sum) (omega (arith, h.e_at, h.w_at));
      e_at = omega (arith, h.e_at);
      room = rw (sum) (omega (arith, h.room));
      done_is = rw (sum) (
          window-append (length l.done) (length l.edit) s.r s.buf
          ∙ ap₂ (λ a b. a ++ b) h.done_is
              (window_same (length l.edit) (s.r + length l.done) s.w s.buf (omega (arith, h.w_at))
                ∙ h.edit_is));
      edit_is = refl;
    }

-- The ring is full just if the lines are.
full_same :
    {s : Input} {l : Lines} → Shows s l → (s.e == (s.r + input_buf) % u32) ≡ (size l == input_buf)
full_same {s} {l} h = go s.e s.r s.w (length l.done) (length l.edit) h.word h.w_at h.e_at h.room
  where
    go :
        (e r w m n : ℕ)
        → r < u32
        → w ≡ (r + m) % u32
        → e ≡ (w + n) % u32
        → m + n ≤ input_buf
        → (e == (r + input_buf) % u32) ≡ (m + n == input_buf)
    go e r w m n h h1 h2 h3 = ground arith

pub commit_line-Shows :
    (c : ℕ) {s : Input} {l : Lines} → Shows s l → Shows (commit_line c s) (end_line c l)
commit_line-Shows c {s} {l} h =
    let same = full_same h in
    elim (Bool-cases (c == newline || c == ctrl 68 || size l == input_buf)) [
      | inl z ↦ rw (same) (rw (z) (committed-Shows h))
      | inr z ↦ rw (same) (rw (z) h)
    ]

pub back-Shows :
    {s : Input} {l : Lines} (x : ℕ) (xs : List ℕ)
    → Shows s l
    → l.edit ≡ x ∷ xs
    → Shows (record s { e = before s.e }) (record l { edit = drop_last l.edit })
back-Shows {s} {l} x xs h e =
    let full : length l.edit ≡ suc (length xs) = ap length e in
    let less : length (drop_last l.edit) ≡ length xs =
      ap (λ m. length (drop_last m)) e ∙ length-drop_last x xs in
    record {
      word = h.word;
      w_at = h.w_at;
      e_at = rw (less) (omega (arith, h.e_at, full, h.w_at));
      room = rw (less) (omega (arith, h.room, full));
      done_is = h.done_is;
      edit_is =
          rw (less) (sym (drop_last-window (length xs) s.w s.buf))
          ∙ ap drop_last (ap (λ k. window k s.w s.buf) (sym full) ∙ h.edit_is);
    }
