-- ===== src/Inode/Words.antt =====
-- The words of a block, xv6-public/fs.c.
use os.Base.{
  ℕ, zero, suc, ◌+◌, ◌*◌, ◌/◌, ◌%◌, ◌<◌, ◌≡◌, ◌≢◌, refl, ◌∙◌, Bool, false, ◌==◌, ==_iff, arith,
}
use os.Blocks.Defs.{Block}
use os.Inode.Defs.{value, bit, word_at, put_word}

unfoldable pub cap : ℕ → ℕ
cap zero = 1
cap (suc n) = 2 * cap n

value_same : (n : ℕ) (f g : ℕ → Bool) → ((k : ℕ) → k < n → f k ≡ g k) → value n f ≡ value n g
unfolding value
value_same zero f g e = refl
value_same (suc n) f g e =
    rw
      (
        e 0 (omega arith),
        value_same n (λ k. f (suc k)) (λ k. g (suc k)) (λ k h. e (suc k) (omega arith)),
      )
      refl

value-bit : (n w : ℕ) → w < cap n → value n (λ k. bit k w) ≡ w
unfolding value bit cap
value-bit zero w h = omega arith
value-bit (suc n) w h =
    let half : value n (λ k. bit k (w / 2)) ≡ w / 2 = value-bit n (w / 2) (omega arith) in
    rw (half) (ground arith)

pub word_at-put_word : (j w : ℕ) (d : Block) → w < 4294967296 → word_at (put_word j w d) j ≡ w
unfolding word_at put_word cap
word_at-put_word j w d h =
    value_same 32 (λ k. put_word j w d (4 * j + k / 8) (k % 8)) (λ k. bit k w) inside
    ∙ value-bit 32 w h
  where
    inside : (k : ℕ) → k < 32 → put_word j w d (4 * j + k / 8) (k % 8) ≡ bit k w
    inside k small =
        let here : (4 * j + k / 8) / 4 ≡ j = omega arith in
        let place : (4 * j + k / 8) % 4 * 8 + k % 8 ≡ k = omega arith in
        rw (here, (==_iff j j).1 refl, place) refl

pub word_at-put_word_ne : (j i w : ℕ) (d : Block) → i ≢ j → word_at (put_word j w d) i ≡ word_at d i
unfolding word_at put_word
word_at-put_word_ne j i w d apart =
    value_same 32 (λ k. put_word j w d (4 * i + k / 8) (k % 8)) (λ k. d (4 * i + k / 8) (k % 8))
      inside
  where
    inside : (k : ℕ) → k < 32 → put_word j w d (4 * i + k / 8) (k % 8) ≡ d (4 * i + k / 8) (k % 8)
    inside k small =
        let there : (4 * i + k / 8) / 4 ≡ i = omega arith in
        let other : (i == j) ≡ false = ground arith in rw (there, other) refl

-- A block of zeros has zero words.
pub word_at_zero : (j : ℕ) → word_at (λ _ _. false) j ≡ 0
unfolding word_at value
word_at_zero j = none_set 32
  where
    none_set : (n : ℕ) → value n (λ _. false) ≡ 0
    none_set zero = refl
    none_set (suc n) = rw (none_set n) refl
