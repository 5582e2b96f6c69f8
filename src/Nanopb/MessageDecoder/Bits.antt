-- ===== src/Nanopb/MessageDecoder/Bits.antt =====
-- Words as sets of bits.
use app_card.Base.{
  ℕ, zero, suc, ◌-◌, ◌/◌, ◌%◌, ◌^◌, ◌<◌, ◌≡◌, refl, sym, ap, ◌∙◌, ◌⊎◌, inl, inr, ◌↔◌, List, [], ◌∷◌,
  All, bit_or, arith,
}
use app_card.Base.Bits.{bit_or_last, bit_or-lt}
use native.Mathlib.Nat.{pow-suc, one-le-pow}
use mathlib.Core.List.{Memᴰ}
use mathlib.Core.List.Memᴰ.{head, tail}

-- The bit `i` of a word.
unfoldable bit : ℕ → ℕ → ℕ
bit zero w = w % 2
bit (suc i) w = bit i (w / 2)

bit-bit_or : (i a b : ℕ) → bit i (bit_or a b) ≡ 1 → (bit i a ≡ 1) ⊎ (bit i b ≡ 1)
unfolding bit
bit-bit_or zero a b h = ground (arith, bit_or_last a b)
bit-bit_or (suc i) a b h =
    bit-bit_or i (a / 2) (b / 2) (ap (bit i) (omega (arith, bit_or_last a b)) ∙ h)

bit_or-bit_left : (i a b : ℕ) → bit i a ≡ 1 → bit i (bit_or a b) ≡ 1
unfolding bit
bit_or-bit_left zero a b h = ground (arith, bit_or_last a b)
bit_or-bit_left (suc i) a b h =
    ap (bit i) (omega (arith, bit_or_last a b)) ∙ bit_or-bit_left i (a / 2) (b / 2) h

bit_or-bit_right : (i a b : ℕ) → bit i b ≡ 1 → bit i (bit_or a b) ≡ 1
unfolding bit
bit_or-bit_right zero a b h = ground (arith, bit_or_last a b)
bit_or-bit_right (suc i) a b h =
    ap (bit i) (omega (arith, bit_or_last a b)) ∙ bit_or-bit_right i (a / 2) (b / 2) h

bit-two_pow : (i : ℕ) → bit i (2 ^ i) ≡ 1
unfolding bit
bit-two_pow zero = refl
bit-two_pow (suc i) = ap (bit i) (omega (arith, pow-suc 2 i)) ∙ bit-two_pow i

bit-zero : (i : ℕ) → bit i 0 ≡ 0
unfolding bit
bit-zero zero = refl
bit-zero (suc i) = bit-zero i

bit-two_pow_only : (i k : ℕ) → bit i (2 ^ k) ≡ 1 → i ≡ k
unfolding bit
bit-two_pow_only zero zero h = refl
bit-two_pow_only zero (suc k) h = absurd (omega (arith, pow-suc 2 k))
bit-two_pow_only (suc i) zero h = absurd (omega (arith, bit-zero i))
bit-two_pow_only (suc i) (suc k) h =
    ap suc (bit-two_pow_only i k (ap (bit i) (omega (arith, pow-suc 2 k)) ∙ h))

-- A word of `n` bits is full if all of them are set.
full : (n w : ℕ) → w < 2 ^ n → ((i : ℕ) → i < n → bit i w ≡ 1) → w ≡ 2 ^ n - 1
unfolding bit
full zero w h all = omega arith
full (suc n) w h all = omega (
  arith,
  pow-suc 2 n,
  all 0 (omega arith),
  full n (w / 2) (omega (arith, pow-suc 2 n)) (λ i lt. all (suc i) (omega arith)),
  one-le-pow n 2,
)

full-bit : (n i : ℕ) → i < n → bit i (2 ^ n - 1) ≡ 1
unfolding bit
full-bit zero i h = absurd (omega arith)
full-bit (suc n) zero h = omega (arith, pow-suc 2 n, one-le-pow n 2)
full-bit (suc n) (suc i) h =
    ap (bit i) (omega (arith, pow-suc 2 n, one-le-pow n 2)) ∙ full-bit n i (omega arith)

pub two_pow-lt : (k n : ℕ) → k < n → 2 ^ k < 2 ^ n
two_pow-lt k zero h = absurd (omega arith)
two_pow-lt zero (suc n) h = omega (arith, pow-suc 2 n, one-le-pow n 2)
two_pow-lt (suc k) (suc n) h = omega (arith, pow-suc 2 n, pow-suc 2 k, two_pow-lt k n (omega arith))

-- A word with the bits `ks`.
unfoldable pub or_bits : List ℕ → ℕ
or_bits [] = 0
or_bits (k ∷ ks) = bit_or (or_bits ks) (2 ^ k)

pub or_bits-lt : (n : ℕ) (ks : List ℕ) → All (λ k. k < n) ks → or_bits ks < 2 ^ n
unfolding or_bits
or_bits-lt n [] h = omega (arith, one-le-pow n 2)
or_bits-lt n (k ∷ ks) h =
    bit_or-lt n (or_bits ks) (2 ^ k) (or_bits-lt n ks h.1) (two_pow-lt k n h.0)

bit-or_bits : (i : ℕ) (ks : List ℕ) → bit i (or_bits ks) ≡ 1 → Memᴰ i ks
unfolding or_bits
bit-or_bits i [] h = absurd (omega (arith, bit-zero i))
bit-or_bits i (k ∷ ks) h = elim (bit-bit_or i (or_bits ks) (2 ^ k) h) [
  | inl p ↦ tail (bit-or_bits i ks p)
  | inr p ↦ head (bit-two_pow_only i k p)
]

or_bits-bit : (i : ℕ) (ks : List ℕ) → Memᴰ i ks → bit i (or_bits ks) ≡ 1
unfolding or_bits
or_bits-bit i [] m = elim m [ ]
or_bits-bit i (k ∷ ks) (head e) =
    bit_or-bit_right i (or_bits ks) (2 ^ k) (ap (λ (j : ℕ). bit i (2 ^ j)) (sym e) ∙ bit-two_pow i)
or_bits-bit i (k ∷ ks) (tail m) = bit_or-bit_left i (or_bits ks) (2 ^ k) (or_bits-bit i ks m)

-- The word with the bits `ks` is full up to `n` just if they are all the numbers below `n`.
pub or_bits-full :
    (n : ℕ) (ks : List ℕ)
    → All (λ k. k < n) ks
    → (or_bits ks ≡ 2 ^ n - 1) ↔ ((i : ℕ) → i < n → Memᴰ i ks)
or_bits-full n ks h = (
  λ e i lt. bit-or_bits i ks (ap (bit i) e ∙ full-bit n i lt),
  λ all. full n (or_bits ks) (or_bits-lt n ks h) (λ i lt. or_bits-bit i ks (all i lt)),
)
