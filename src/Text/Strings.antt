-- ===== src/Text/Strings.antt =====
-- What `memcmp`, `safestrcpy` and `strncpy` do, xv6-public/string.c.
use os.Base.{
  ℕ, zero, suc, ◌+◌, ◌≤◌, ◌<◌, ◌≡◌, ◌≢◌, refl, sym, ap, ◌∙◌, ◌⊎◌, inl, inr, ◌↔◌, arith, ◌==◌,
  Bool-cases, ==_iff, pos,
}
use os.Text.Defs.{Memory, store, difference, memcmp, copy_text, safestrcpy, strncpy}
use os.Text.Moves.{store_ne, store_eq, stosb-Filled}

difference_ne : (a b : ℕ) → a ≢ b → difference a b ≢ pos 0
difference_ne a b ne e = ne (ground arith)

equal_at :
    (v1 v2 n j : ℕ) (mem : Memory)
    → mem v1 ≡ mem v2
    → ((j : ℕ) → j < n → mem (v1 + 1 + j) ≡ mem (v2 + 1 + j))
    → j < suc n
    → mem (v1 + j) ≡ mem (v2 + j)
equal_at v1 v2 n zero mem same later lt =
    let at : (v : ℕ) → v + 0 ≡ v = λ v. omega arith in ap mem (at v1) ∙ same ∙ sym (ap mem (at v2))
equal_at v1 v2 n (suc j) mem same later lt =
    let at : (v : ℕ) → v + suc j ≡ v + 1 + j = λ v. omega arith in
    ap mem (at v1) ∙ later j (omega arith) ∙ sym (ap mem (at v2))

-- `memcmp` returns 0 just if the n bytes at both addresses are equal.
pub memcmp_iff :
    (v1 v2 n : ℕ) (mem : Memory)
    → (memcmp v1 v2 n mem ≡ pos 0) ↔ ((j : ℕ) → j < n → mem (v1 + j) ≡ mem (v2 + j))
unfolding memcmp
memcmp_iff v1 v2 zero mem = (λ e j lt. absurd (omega arith), λ all. refl)
memcmp_iff v1 v2 (suc n) mem =
    let at : (v : ℕ) → v ≡ v + 0 = λ v. omega arith in
    elim (Bool-cases (mem v1 == mem v2)) [
      | inr z ↦
          let differ : mem v1 ≢ mem v2 = ground arith in
          rw (z, memcmp)
            (
              λ e. absurd (difference_ne (mem v1) (mem v2) differ e),
              λ all. absurd (differ (ap mem (at v1) ∙ all 0 (omega arith) ∙ sym (ap mem (at v2)))),
            )
      | inl z ↦
          let same : mem v1 ≡ mem v2 = (==_iff (mem v1) (mem v2)).0 z in
          rw (z, memcmp)
            (
              λ e j lt. equal_at v1 v2 n j mem same ((memcmp_iff (v1 + 1) (v2 + 1) n mem).0 e) lt,
              λ all. (memcmp_iff (v1 + 1) (v2 + 1) n mem).1 (λ j lt.
                  let on : (v : ℕ) → v + 1 + j ≡ v + suc j = λ v. omega arith in
                  ap mem (on v1) ∙ all (suc j) (omega arith) ∙ sym (ap mem (on v2))),
            )
    ]

-- Every byte outside the n from `s` on is as before.
abbrev pub Outside : ℕ → ℕ → Memory → Memory → Type 0
Outside s n before after = (x : ℕ) → (x < s) ⊎ (s + n ≤ x) → after x ≡ before x

copy_text-Outside :
    (n s t : ℕ) (mem : Memory)
    → Outside s (suc n) mem (copy_text s t n mem)
      × ((k : ℕ) × (k ≤ n) × (copy_text s t n mem (s + k) ≡ 0))
unfolding copy_text
copy_text-Outside zero s t mem = (
  λ x out. store_ne mem s x 0 (λ e. ground arith),
  (0, omega arith, store_eq mem s (s + 0) 0 (omega arith)),
)
copy_text-Outside (suc n) s t mem =
    let copied = store mem s (mem t) in
    elim (Bool-cases (mem t == 0)) [
      | inl z ↦
          rw (z, copy_text)
            (
              λ x out.
                  store_ne copied (s + 1) x 0 (λ e. ground arith)
                  ∙ store_ne mem s x (mem t) (λ e. ground arith),
              (1, omega arith, store_eq copied (s + 1) (s + 1) 0 refl),
            )
      | inr z ↦
          let (outside, (k, low, ends)) = copy_text-Outside n (s + 1) (t + 1) copied in
          let here : s + suc k ≡ s + 1 + k = omega arith in
          rw (z, copy_text)
            (
              λ x out. outside x (ground arith) ∙ store_ne mem s x (mem t) (λ e. ground arith),
              (suc k, omega arith, ap (copy_text (s + 1) (t + 1) n copied) here ∙ ends),
            )
    ]

-- `safestrcpy` with room for n + 1 bytes changes no byte outside them, and leaves a NUL among them.
pub safestrcpy-Outside :
    (s t n : ℕ) (mem : Memory)
    → Outside s (n + 1) mem (safestrcpy s t (pos (n + 1)) mem)
      × ((k : ℕ) × (k < n + 1) × (safestrcpy s t (pos (n + 1)) mem (s + k) ≡ 0))
unfolding safestrcpy
safestrcpy-Outside s t n mem =
    let next : n + 1 ≡ suc n = omega arith in
    let (outside, (k, low, ends)) = copy_text-Outside n s t mem in
    rw (next) (outside, (k, omega arith, ends))

-- `strncpy` changes no byte outside the n at its destination.
pub strncpy-Outside : (n s t : ℕ) (mem : Memory) → Outside s n mem (strncpy s t n mem)
unfolding strncpy
strncpy-Outside zero s t mem = λ x out. refl
strncpy-Outside (suc n) s t mem =
    let copied = store mem s (mem t) in
    elim (Bool-cases (mem t == 0)) [
      | inl z ↦
          rw (z, strncpy)
            (λ x out.
              (stosb-Filled n (s + 1) 0 copied).1 x (ground arith)
              ∙ store_ne mem s x (mem t) (λ e. ground arith))
      | inr z ↦
          rw (z, strncpy)
            (λ x out.
              strncpy-Outside n (s + 1) (t + 1) copied x (ground arith)
              ∙ store_ne mem s x (mem t) (λ e. ground arith))
    ]
