-- ===== src/Text/Moves.antt =====
-- What `memmove` and `memset` leave, xv6-public/string.c.
use os.Base.{
  ℕ, zero, suc, ◌+◌, ◌-◌, ◌*◌, ◌/◌, ◌%◌, ◌^◌, ◌≤◌, ◌<◌, ◌≡◌, ◌≢◌, refl, ap, ◌∙◌, ◌⊎◌, inl, inr,
  ◌&&◌, arith, ◌==◌, ltb, Bool-cases, ==_iff,
}
use os.Text.Defs.{u32, Memory, store, stosb, stosl, word_of, memset, copy_down, copy_up, memmove}

pub store_ne : (mem : Memory) (a x v : ℕ) → x ≢ a → store mem a v x ≡ mem x
store_ne mem a x v ne = elim (Bool-cases (x == a)) [
  | inl z ↦ absurd (ne ((==_iff x a).0 z))
  | inr z ↦ rw (z) refl
]

pub store_eq : (mem : Memory) (a x v : ℕ) → x ≡ a → store mem a v x ≡ v
store_eq mem a x v e = rw ((==_iff x a).1 e) refl

-- `after` has at `d` the n bytes that `before` has at `s`, and the same bytes elsewhere.
abbrev pub Copied : ℕ → ℕ → ℕ → Memory → Memory → Type 0
Copied d s n before after =
    ((j : ℕ) → j < n → after (d + j) ≡ before (s + j))
    × ((x : ℕ) → (x < d) ⊎ (d + n ≤ x) → after x ≡ before x)

copy_down-Copied : (n d s : ℕ) (mem : Memory) → s < d → Copied d s n mem (copy_down d s n mem)
unfolding copy_down
copy_down-Copied zero d s mem h = (λ j lt. absurd (omega arith), λ x out. refl)
copy_down-Copied (suc n) d s mem h =
    let mem' = store mem (d + n) (mem (s + n)) in
    let (inside, outside) = copy_down-Copied n d s mem' h in
    (
      λ j lt. elim (Bool-cases (j == n)) [
        | inl z ↦
            let e : j ≡ n = (==_iff j n).0 z in
            rw (e) (
              outside (d + n) (inr (omega arith)) ∙ store_eq mem (d + n) (d + n) (mem (s + n)) refl)
        | inr z ↦
            inside j (ground arith) ∙ store_ne mem (d + n) (s + j) (mem (s + n)) (λ e. omega arith)
      ],
      λ x out. outside x (ground arith) ∙ store_ne mem (d + n) x (mem (s + n)) (λ e. ground arith),
    )

copy_up-Copied :
    (n d s : ℕ) (mem : Memory) → (d ≤ s) ⊎ (s + n ≤ d) → Copied d s n mem (copy_up d s n mem)
unfolding copy_up
copy_up-Copied zero d s mem h = (λ j lt. absurd (omega arith), λ x out. refl)
copy_up-Copied (suc n) d s mem h =
    let mem' = store mem d (mem s) in
    let (inside, outside) = copy_up-Copied n (d + 1) (s + 1) mem' (ground arith) in
    (
      λ j lt. elim (Bool-cases (j == 0)) [
        | inl z ↦
            let here : d + j ≡ d = ground arith in
            let there : s ≡ s + j = ground arith in
            outside (d + j) (inl (omega arith)) ∙ store_eq mem d (d + j) (mem s) here ∙ ap mem there
        | inr z ↦
            let here : d + j ≡ d + 1 + (j - 1) = ground arith in
            let there : s + 1 + (j - 1) ≡ s + j = ground arith in
            ap (copy_up (d + 1) (s + 1) n mem') here
            ∙ inside (j - 1) (ground arith)
            ∙ ap mem' there
            ∙ store_ne mem d (s + j) (mem s) (λ e. ground arith)
      ],
      λ x out. outside x (ground arith) ∙ store_ne mem d x (mem s) (λ e. ground arith),
    )

-- `memmove` of n bytes leaves at `dst` the bytes that were at `src` before, also where the ranges
-- overlap, and changes no other byte, if the range at `src` ends below 2 ^ 32.
pub memmove-Copied :
    (dst src n : ℕ) (mem : Memory) → src + n < u32 → Copied dst src n mem (memmove dst src n mem)
unfolding memmove
memmove-Copied dst src n mem h =
    let wrapped : (src + n) % u32 ≡ src + n = omega arith in
    elim (Bool-cases (ltb src dst && ltb dst ((src + n) % u32))) [
      | inl z ↦ rw (z, memmove) (copy_down-Copied n dst src mem (ground arith))
      | inr z ↦ rw (z, memmove) (copy_up-Copied n dst src mem (ground arith))
    ]

-- The n bytes from `a` on are v, and the others as before.
abbrev pub Filled : ℕ → ℕ → ℕ → Memory → Memory → Type 0
Filled n a v before after =
    ((x : ℕ) → a ≤ x → x < a + n → after x ≡ v)
    × ((x : ℕ) → (x < a) ⊎ (a + n ≤ x) → after x ≡ before x)

pub stosb-Filled : (n a v : ℕ) (mem : Memory) → Filled n a v mem (stosb n a v mem)
unfolding stosb
stosb-Filled zero a v mem = (λ x low high. absurd (omega arith), λ x out. refl)
stosb-Filled (suc n) a v mem =
    let (inside, outside) = stosb-Filled n (a + 1) v (store mem a v) in
    (
      λ x low high. elim (Bool-cases (x == a)) [
        | inl z ↦ outside x (ground arith) ∙ store_eq mem a x v ((==_iff x a).0 z)
        | inr z ↦ inside x (ground arith) (omega arith)
      ],
      λ x out. outside x (ground arith) ∙ store_ne mem a x v (λ e. ground arith),
    )

word_bytes :
    (c : ℕ)
    → c < 256
    → (word_of c % 256 ≡ c)
      × (word_of c / 2 ^ 8 % 256 ≡ c)
      × (word_of c / 2 ^ 16 % 256 ≡ c)
      × (word_of c / 2 ^ 24 % 256 ≡ c)
word_bytes c h = (omega arith, omega arith, omega arith, omega arith)

stosb_four :
    (k a c : ℕ) (mem : Memory)
    → stosb (suc (suc (suc (suc k)))) a c mem
      ≡ stosb k (a + 4) c (store (store (store (store mem a c) (a + 1) c) (a + 2) c) (a + 3) c)
unfolding stosb
stosb_four k a c mem =
    let after : ℕ → ℕ → ℕ → Memory =
      λ x y z. stosb k z c (store (store (store (store mem a c) (a + 1) c) x c) y c) in
    let two : a + 1 + 1 ≡ a + 2 = omega arith in
    let three : a + 1 + 1 + 1 ≡ a + 3 = omega arith in
    let four : a + 1 + 1 + 1 + 1 ≡ a + 4 = omega arith in
    ap (λ x. after x (a + 1 + 1 + 1) (a + 1 + 1 + 1 + 1)) two
    ∙ ap (λ y. after (a + 2) y (a + 1 + 1 + 1 + 1)) three
    ∙ ap (after (a + 2) (a + 3)) four

-- A word of equal bytes is the same as four bytes.
stosl_lem : (n a c : ℕ) (mem : Memory) → c < 256 → stosl n a (word_of c) mem ≡ stosb (n * 4) a c mem
unfolding stosl stosb
stosl_lem zero a c mem h = refl
stosl_lem (suc n) a c mem h =
    let (b₀, b₁, b₂, b₃) = word_bytes c h in
    let four : suc n * 4 ≡ suc (suc (suc (suc (n * 4)))) = omega arith in
    rw (four, b₀, b₁, b₂, b₃, stosb_four (n * 4) a c mem)
      (stosl_lem n (a + 4) c (store (store (store (store mem a c) (a + 1) c) (a + 2) c) (a + 3) c)
        h)

-- `memset` fills n bytes with the low byte of c, whether it stores words or bytes, and changes no
-- other byte.
pub memset-Filled : (dst c n : ℕ) (mem : Memory) → Filled n dst (c % 256) mem (memset dst c n mem)
unfolding memset
memset-Filled dst c n mem = elim (Bool-cases (dst % 4 == 0 && n % 4 == 0)) [
  | inr z ↦ rw (z, memset) (stosb-Filled n dst (c % 256) mem)
  | inl z ↦
      let whole : n / 4 * 4 ≡ n = ground arith in
      rw (z, memset, stosl_lem (n / 4) dst (c % 256) mem (omega arith), whole)
        (stosb-Filled n dst (c % 256) mem)
]
