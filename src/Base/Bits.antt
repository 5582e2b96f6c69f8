-- ===== src/Base/Bits.antt =====
-- Masks, shifts and disjoint `|` on machine words, as arithmetic.
use Prim.Native.Nat.{
  ℕ, zero, suc, ◌+◌, ◌-◌, ◌*◌, ◌/◌, ◌%◌, ◌^◌, ◌≤◌, ◌<◌, min, max, bit_and, bit_or, digits, bitwise,
  bit_and-bitwise, bit_or-bitwise,
}
use mathlib.Core.Path.{◌≡◌, refl, ap}
use mathlib.Core.Bool.{Bool, true, ◌&&◌}
use mathlib.Core.WellFounded.{Acc, WellFounded}
use mathlib.Core.WellFounded as Wf
use native.Mathlib.Omega.{arith}
use native.Mathlib.Nat.{le_refl, pow-suc, one-le-pow}
use app_card.Base.Tests.{◌==◌, ==_iff}

Acc-below : (k n : ℕ) → n < k → Acc ◌<◌ n
Acc-below zero n h = elim h [ ]
Acc-below (suc k) n h = Acc.intro n (λ m hm. Acc-below k m (omega arith))

lt_wf : WellFounded ◌<◌
lt_wf = record { apply = λ n. Acc-below (suc n) n (le_refl _) }

-- `bitwise` recurs on digits with the first number as its fuel; any fuel above it does as well.
module _ (z : ℕ → ℕ) (f : ℕ → ℕ → ℕ) where
  digits_any_fuel : (n m a b : ℕ) → a ≤ n → a ≤ m → digits z f n a b ≡ digits z f m a b
  digits_any_fuel zero zero a b p q = refl
  digits_any_fuel zero (suc m) zero b p q = refl
  digits_any_fuel (suc n) zero zero b p q = refl
  digits_any_fuel (suc n) (suc m) zero b p q = refl
  digits_any_fuel zero m (suc a) b p q = absurd (omega arith)
  digits_any_fuel n zero (suc a) b p q = absurd (omega arith)
  digits_any_fuel (suc n) (suc m) (suc a) b p q =
      rw (digits_any_fuel n m (suc a / 2) (b / 2) (omega arith) (omega arith))

  bitwise_step :
      (a b : ℕ)
      → bitwise z f (suc a) b ≡ bitwise z f (suc a / 2) (b / 2) * 2 + f (suc a % 2) (b % 2)
  bitwise_step a b =
      omega (arith, digits_any_fuel a (suc a / 2) (suc a / 2) (b / 2) (omega arith) (le_refl _))

-- The last binary digit of `a | b` and of `a & b`, and the digits above it.
pub bit_or_last : (a b : ℕ) → bit_or a b ≡ bit_or (a / 2) (b / 2) * 2 + max (a % 2) (b % 2)
bit_or_last zero b = simp bit_or-bitwise (omega arith)
bit_or_last (suc a) b = simp bit_or-bitwise (bitwise_step (λ y. y) max a b)

bit_and_last : (a b : ℕ) → bit_and a b ≡ bit_and (a / 2) (b / 2) * 2 + min (a % 2) (b % 2)
bit_and_last zero b = simp bit_and-bitwise (omega arith)
bit_and_last (suc a) b = simp bit_and-bitwise (bitwise_step (λ y. 0) min a b)

pub zero-bit_or : (b : ℕ) → bit_or 0 b ≡ b
zero-bit_or b = simp bit_or-bitwise (omega arith)

double_pow : (g k : ℕ) → g * 2 ^ suc k ≡ 2 * (g * 2 ^ k)
double_pow g k = omega (arith, ap (λ (t : ℕ). g * t) (pow-suc 2 k))

-- `lo | (g << k)` is a sum when `lo` has no bit at `k` or above.
pub bit_or_above : (k lo g : ℕ) → lo < 2 ^ k → bit_or lo (g * 2 ^ k) ≡ lo + g * 2 ^ k
bit_or_above zero lo g h = ground (arith, zero-bit_or (g * 2 ^ 0))
bit_or_above (suc k) lo g h = ground (
  arith,
  bit_or_last lo (g * 2 ^ suc k),
  double_pow g k,
  pow-suc 2 k,
  bit_or_above k (lo / 2) g (omega (arith, pow-suc 2 k)),
)

bit_or-zero : (a : ℕ) → bit_or a 0 ≡ a
bit_or-zero a = Wf.induction lt_wf {C = λ n. bit_or n 0 ≡ n} a above
  where
    above :
        (whole : ℕ) → ((half : ℕ) → half < whole → bit_or half 0 ≡ half) → bit_or whole 0 ≡ whole
    above zero halves = refl
    above (suc rest) halves =
        omega (arith, halves (suc rest / 2) (omega arith), bit_or_last (suc rest) 0)

-- The same with the shifted part on the left, `(g << k) | lo`.
pub bit_or_below : (k g lo : ℕ) → lo < 2 ^ k → bit_or (g * 2 ^ k) lo ≡ lo + g * 2 ^ k
bit_or_below zero g lo h = ground (arith, bit_or-zero (g * 2 ^ 0))
bit_or_below (suc k) g lo h = ground (
  arith,
  bit_or_last (g * 2 ^ suc k) lo,
  double_pow g k,
  pow-suc 2 k,
  bit_or_below k g (lo / 2) (omega (arith, pow-suc 2 k)),
)

bit_and-zero : (a : ℕ) → bit_and a 0 ≡ 0
bit_and-zero a = Wf.induction lt_wf {C = λ n. bit_and n 0 ≡ 0} a above
  where
    above : (whole : ℕ) → ((half : ℕ) → half < whole → bit_and half 0 ≡ 0) → bit_and whole 0 ≡ 0
    above zero halves = refl
    above (suc rest) halves =
        omega (arith, halves (suc rest / 2) (omega arith), bit_and_last (suc rest) 0)

bit_and_low : (k q r : ℕ) → r < 2 ^ k → bit_and (r + q * 2 ^ k) (2 ^ k - 1) ≡ r
bit_and_low zero q r h = omega (arith, bit_and-zero (r + q * 2 ^ 0))
bit_and_low (suc k) q r h = ground (
  arith,
  bit_and_last (r + q * 2 ^ suc k) (2 ^ suc k - 1),
  double_pow q k,
  pow-suc 2 k,
  one-le-pow k 2,
  bit_and_low k q (r / 2) (omega (arith, pow-suc 2 k)),
)

-- A mask of `k` low bits is the remainder by `2 ^ k`.
pub bit_and_mask : (k a : ℕ) → bit_and a (2 ^ k - 1) ≡ a % 2 ^ k
bit_and_mask k a = ground (arith, one-le-pow k 2, bit_and_low k (a / 2 ^ k) (a % 2 ^ k))

pub bit_and_0x7f : (a : ℕ) → bit_and a 0x7f ≡ a % 128
bit_and_0x7f a = bit_and_mask 7 a

pub bit_and_7 : (a : ℕ) → bit_and a 7 ≡ a % 8
bit_and_7 a = bit_and_mask 3 a

pub bit_and_1 : (a : ℕ) → bit_and a 1 ≡ a % 2
bit_and_1 a = bit_and_mask 1 a

pub bit_and_0xff : (a : ℕ) → bit_and a 0xff ≡ a % 256
bit_and_0xff a = bit_and_mask 8 a

-- Facts on single bytes are tables, checked by evaluation.
unfoldable pub holds_upto : (ℕ → Bool) → ℕ → Bool
holds_upto test zero = true
holds_upto test (suc v) = holds_upto test v && test v

pub holds_upto-below :
    (test : ℕ → Bool) (bound v : ℕ) → v < bound → holds_upto test bound ≡ true → test v ≡ true
unfolding holds_upto
holds_upto-below test zero v lt table = absurd (omega arith)
holds_upto-below test (suc bound) v lt table = ground (arith, holds_upto-below test bound v)

pub by_table :
    (n : ℕ) (f g : ℕ → ℕ) → holds_upto (λ x. f x == g x) n ≡ true → (x : ℕ) → x < n → f x ≡ g x
by_table n f g h x lt = (==_iff (f x) (g x)).0 (holds_upto-below (λ y. f y == g y) n x lt h)

pub bit_and_0x80 : (b : ℕ) → b < 256 → bit_and b 0x80 ≡ b / 128 * 128
unfolding holds_upto
bit_and_0x80 = by_table 256 (λ b. bit_and b 0x80) (λ b. b / 128 * 128) refl

pub bit_or_0x80 : (b : ℕ) → b < 128 → bit_or b 0x80 ≡ b + 128
unfolding holds_upto
bit_or_0x80 = by_table 128 (λ b. bit_or b 0x80) (λ b. b + 128) refl

-- `b & 0x70` is 0 for the numbers that fit 4 bits.
pub bit_and_0x70 : (b : ℕ) → b < 16 → bit_and b 0x70 ≡ 0
unfolding holds_upto
bit_and_0x70 = by_table 16 (λ b. bit_and b 0x70) (λ b. 0) refl

below_one : (a : ℕ) → a < 2 ^ 0 → a ≡ 0
below_one a h = omega arith

-- What fits in `n` bits still does.
pub bit_or-lt : (n a b : ℕ) → a < 2 ^ n → b < 2 ^ n → bit_or a b < 2 ^ n
bit_or-lt zero a b h k = omega (arith, zero-bit_or b, ap (λ (t : ℕ). bit_or t b) (below_one a h))
bit_or-lt (suc n) a b h k = ground (
  arith,
  bit_or_last a b,
  pow-suc 2 n,
  bit_or-lt n (a / 2) (b / 2) (omega (arith, pow-suc 2 n)) (omega (arith, pow-suc 2 n)),
)
