-- ===== src/Console/Window.antt =====
-- Stretches of the ring `input.buf` of xv6-public/console.c.
use os.Base.{
  ℕ, zero, suc, ◌+◌, ◌%◌, ◌≤◌, ◌<◌, ◌≡◌, ◌≢◌, refl, ap, ◌∙◌, inl, inr, List, [], ◌∷◌, ◌++◌, ◌==◌,
  Bool-cases, ==_iff, arith, length,
}
use os.Console.Defs.{input_buf, store}

-- The k bytes from a position on.
unfoldable pub window : ℕ → ℕ → (ℕ → ℕ) → List ℕ
window zero pos d = []
window (suc k) pos d = d (pos % input_buf) ∷ window k (pos + 1) d

pub length-window : (k pos : ℕ) (d : ℕ → ℕ) → length (window k pos d) ≡ k
unfolding window
length-window zero pos d = refl
length-window (suc k) pos d = ap suc (length-window k (pos + 1) d)

-- Positions count up to a multiple of the size of the ring.
pub window_same :
    (k a b : ℕ) (d : ℕ → ℕ) → a % input_buf ≡ b % input_buf → window k a d ≡ window k b d
unfolding window
window_same zero a b d e = refl
window_same (suc k) a b d e =
    rw (e) (ap (λ l. d (b % input_buf) ∷ l) (window_same k (a + 1) (b + 1) d (omega arith)))

pub window-append :
    (k m pos : ℕ) (d : ℕ → ℕ) → window (k + m) pos d ≡ window k pos d ++ window m (pos + k) d
unfolding window
window-append zero m pos d =
    let here : pos ≡ pos + 0 = omega arith in
    let none_more : 0 + m ≡ m = omega arith in rw (none_more) (ap (λ p. window m p d) here)
window-append (suc k) m pos d =
    let one_more : suc k + m ≡ suc (k + m) = omega arith in
    let later : pos + 1 + k ≡ pos + suc k = omega arith in
    rw (one_more) (
      ap (λ l. d (pos % input_buf) ∷ l)
        (window-append k m (pos + 1) d ∙ ap (λ n. window k (pos + 1) d ++ window m n d) later))

store_ne : (d : ℕ → ℕ) (i j v : ℕ) → j ≢ i → store i v d j ≡ d j
store_ne d i j v ne = elim (Bool-cases (j == i)) [
  | inl z ↦ absurd (ne ((==_iff j i).0 z))
  | inr z ↦ rw (z) refl
]

-- A byte stored past a stretch, with both within the ring, is not part of it.
pub window-store :
    (k m pos i v : ℕ) (d : ℕ → ℕ)
    → k ≤ m
    → m < input_buf
    → i ≡ (pos + m) % input_buf
    → window k pos (store i v d) ≡ window k pos d
unfolding window
window-store zero m pos i v d low high at = refl
window-store (suc k) zero pos i v d low high at = absurd (omega arith)
window-store (suc k) (suc m) pos i v d low high at =
    rw (store_ne d i (pos % input_buf) v (λ e. omega arith)) (
      ap (λ l. d (pos % input_buf) ∷ l)
        (window-store k m (pos + 1) i v d (omega arith) (omega arith) (omega arith)))

pub store_eq : (d : ℕ → ℕ) (i j v : ℕ) → j ≡ i → store i v d j ≡ v
store_eq d i j v e = rw ((==_iff j i).1 e) refl
