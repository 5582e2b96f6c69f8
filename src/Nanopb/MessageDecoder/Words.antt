-- ===== src/Nanopb/MessageDecoder/Words.antt =====
-- The two words that `pb_decode_noinit` notes the required fields in.
use app_card.Base.{
  ℕ, ◌+◌, ◌-◌, ◌/◌, ◌%◌, ◌^◌, ◌≤◌, ◌<◌, ◌≡◌, refl, ap, ◌∙◌, ◌⊎◌, inl, inr, ◌↔◌, Bool, true, false,
  List, [], ◌∷◌, All, ◌==◌, ltb→lt, leb→le, bit_and, bit_or, arith, ltb, leb, if◌then◌else◌,
}
use app_card.Base.Bits.{bit_and_mask}
use mathlib.Core.List.{Memᴰ}
use mathlib.Core.List.Memᴰ.{head, tail}
use native.Mathlib.Decide.{dec_lt}
use app_card.Nanopb.MessageDecoder.{Seen, mark}
use app_card.Nanopb.MessageDecoder.Bits.{two_pow-lt, or_bits, or_bits-full}

-- What is noted once the required fields with the indices `is` were seen.
unfoldable pub marked : List ℕ → Seen
marked [] = record { low = 0; high = 0 }
marked (i ∷ is) = mark i (marked is)

tmp_low : (k : ℕ) → k < 32 → 2 ^ bit_and k 31 % 2 ^ 32 ≡ 2 ^ k
tmp_low k h =
    let low : bit_and k 31 ≡ k = bit_and_mask 5 k ∙ omega arith in
    ap (λ (j : ℕ). 2 ^ j % 2 ^ 32) low ∙ omega (arith, two_pow-lt k 32 h)

tmp_high : (k : ℕ) → k < 32 → 2 ^ bit_and (32 + k) 31 % 2 ^ 32 ≡ 2 ^ k
tmp_high k h =
    let low : bit_and (32 + k) 31 ≡ k = bit_and_mask 5 (32 + k) ∙ omega arith in
    ap (λ (j : ℕ). 2 ^ j % 2 ^ 32) low ∙ omega (arith, two_pow-lt k 32 h)

mark_low :
    (k : ℕ) (seen : Seen) → k < 32 → mark k seen ≡ record seen { low = bit_or seen.low (2 ^ k) }
unfolding mark
mark_low k seen h = let here : (k / 2 ^ 5 == 0) ≡ true = ground arith in rw (tmp_low k h, here) refl

mark_high :
    (k : ℕ) (seen : Seen)
    → k < 32
    → mark (32 + k) seen ≡ record seen { high = bit_or seen.high (2 ^ k) }
unfolding mark
mark_high k seen h =
    let here : ((32 + k) / 2 ^ 5 == 0) ≡ false = ground arith in rw (tmp_high k h, here) refl

-- The indices in each word.
unfoldable pub lows : List ℕ → List ℕ
lows [] = []
lows (i ∷ is) = if ltb i 32 then i ∷ lows is else lows is

unfoldable pub highs : List ℕ → List ℕ
highs [] = []
highs (i ∷ is) = if leb 32 i then (i - 32) ∷ highs is else highs is

back_to :
    (seen : Seen) (i : ℕ)
    → 32 ≤ i
    → i < 64
    → mark i seen ≡ record seen { high = bit_or seen.high (2 ^ (i - 32)) }
back_to seen i ge lt =
    let back : i ≡ 32 + (i - 32) = omega arith in
    ap (λ (j : ℕ). mark j seen) back ∙ mark_high (i - 32) seen (omega arith)

pub marked_words :
    (is : List ℕ)
    → All (λ i. i < 64) is
    → marked is ≡ record { low = or_bits (lows is); high = or_bits (highs is) }
unfolding marked or_bits lows highs
marked_words [] h = refl
marked_words (i ∷ is) h = elim (dec_lt i 32) [
  | yes lt ↦
      let here : ltb i 32 ≡ true = ground arith in
      let not_there : leb 32 i ≡ false = ground arith in
      rw (here, not_there, marked_words is h.1, mark_low i _ lt) refl
  | no ge ↦
      let not_here : ltb i 32 ≡ false = ground arith in
      let there : leb 32 i ≡ true = ground arith in
      rw (not_here, there, marked_words is h.1)
        (back_to (record { low = or_bits (lows is); high = or_bits (highs is) }) i (omega arith)
          h.0)
]

-- An element that is kept or left out.
Mem-if :
    (b : Bool) (i k : ℕ) (ks : List ℕ)
    → Memᴰ i (if b then k ∷ ks else ks)
    → ((b ≡ true) × (i ≡ k)) ⊎ Memᴰ i ks
Mem-if true i k ks (head e) = inl (refl, e)
Mem-if true i k ks (tail m) = inr m
Mem-if false i k ks m = inr m

if-Mem : (b : Bool) (i k : ℕ) (ks : List ℕ) → b ≡ true → i ≡ k → Memᴰ i (if b then k ∷ ks else ks)
if-Mem true i k ks h e = head e
if-Mem false i k ks h e = absurd (ground arith)

if-Mem_tail : (b : Bool) (i k : ℕ) (ks : List ℕ) → Memᴰ i ks → Memᴰ i (if b then k ∷ ks else ks)
if-Mem_tail true i k ks m = tail m
if-Mem_tail false i k ks m = m

lows-Mem : (i : ℕ) (is : List ℕ) → Memᴰ i (lows is) → Memᴰ i is
unfolding lows
lows-Mem i [] m = m
lows-Mem i (k ∷ is) m = elim (Mem-if (ltb k 32) i k (lows is) m) [
  | inl (b, e) ↦ head e
  | inr m' ↦ tail (lows-Mem i is m')
]

Mem-lows : (i : ℕ) (is : List ℕ) → i < 32 → Memᴰ i is → Memᴰ i (lows is)
unfolding lows
Mem-lows i [] h m = elim m [ ]
Mem-lows i (k ∷ is) h (head e) = if-Mem (ltb k 32) i k (lows is) (ground (arith, e)) e
Mem-lows i (k ∷ is) h (tail m) = if-Mem_tail (ltb k 32) i k (lows is) (Mem-lows i is h m)

highs-Mem : (i : ℕ) (is : List ℕ) → Memᴰ i (highs is) → Memᴰ (32 + i) is
unfolding highs
highs-Mem i [] m = elim m [ ]
highs-Mem i (k ∷ is) m = elim (Mem-if (leb 32 k) i (k - 32) (highs is) m) [
  | inl (b, e) ↦ head (omega (arith, leb→le 32 k b))
  | inr m' ↦ tail (highs-Mem i is m')
]

Mem-highs : (i : ℕ) (is : List ℕ) → Memᴰ (32 + i) is → Memᴰ i (highs is)
unfolding highs
Mem-highs i [] m = elim m [ ]
Mem-highs i (k ∷ is) (head e) =
    if-Mem (leb 32 k) i (k - 32) (highs is) (ground (arith, e)) (omega arith)
Mem-highs i (k ∷ is) (tail m) = if-Mem_tail (leb 32 k) i (k - 32) (highs is) (Mem-highs i is m)

All-if :
    (P : ℕ → Type 0) (b : Bool) (k : ℕ) (ks : List ℕ)
    → (b ≡ true → P k)
    → All P ks
    → All P (if b then k ∷ ks else ks)
All-if P true k ks h hs = (h refl, hs)
All-if P false k ks h hs = hs

All-lows : (n : ℕ) (is : List ℕ) → All (λ i. i < n) is → All (λ i. i < n) (lows is)
unfolding lows
All-lows n [] h = tt
All-lows n (k ∷ is) h = All-if (λ i. i < n) (ltb k 32) k (lows is) (λ _. h.0) (All-lows n is h.1)

lows-lt : (is : List ℕ) → All (λ i. i < 32) (lows is)
unfolding lows
lows-lt [] = tt
lows-lt (k ∷ is) = All-if (λ i. i < 32) (ltb k 32) k (lows is) (λ e. ltb→lt k 32 e) (lows-lt is)

pub highs-lt : (n : ℕ) (is : List ℕ) → All (λ i. i < n) is → All (λ i. i < n - 32) (highs is)
unfolding highs
highs-lt n [] h = tt
highs-lt n (k ∷ is) h =
    All-if (λ i. i < n - 32) (leb 32 k) (k - 32) (highs is) (λ e. omega (arith, leb→le 32 k e, h.0))
      (highs-lt n is h.1)

-- The two words are full, the second up to what is left of the count.
pub low_full :
    (n : ℕ) (is : List ℕ)
    → n ≤ 32
    → All (λ i. i < n) is ⊎ (n ≡ 32)
    → (or_bits (lows is) ≡ 2 ^ n - 1) ↔ ((i : ℕ) → i < n → Memᴰ i is)
low_full n is h below =
    let (there, back) = or_bits-full n (lows is) (bound below) in
    (
      λ e i lt. lows-Mem i is (there e i lt),
      λ all. back (λ i lt. Mem-lows i is (omega arith) (all i lt)),
    )
  where
    bound : All (λ i. i < n) is ⊎ (n ≡ 32) → All (λ i. i < n) (lows is)
    bound (inl a) = All-lows n is a
    bound (inr e) = rw e (lows-lt is)

pub high_full :
    (n : ℕ) (is : List ℕ)
    → All (λ i. i < 32 + n) is
    → (or_bits (highs is) ≡ 2 ^ n - 1) ↔ ((i : ℕ) → i < n → Memᴰ (32 + i) is)
high_full n is h =
    let (there, back) = or_bits-full n (highs is) (rw (by n) (highs-lt (32 + n) is h)) in
    (λ e i lt. highs-Mem i is (there e i lt), λ all. back (λ i lt. Mem-highs i is (all i lt)))
  where
    by : (n : ℕ) → n ≡ 32 + n - 32
    by n = omega arith
