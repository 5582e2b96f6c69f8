-- ===== src/Nanopb/MessageDecoder/Required.antt =====
-- `pb_decode_noinit` notes the required fields that it has seen as bits of two words, and in the end
-- compares the words with what they are when all fields were seen.
use app_card.Base.{
  ℕ, ◌+◌, ◌-◌, ◌/◌, ◌^◌, ◌≤◌, ◌<◌, ◌≡◌, refl, sym, ap, subst, ◌∙◌, inl, inr, ◌↔◌, Bool, true, false,
  List, [], ◌∷◌, All, some, get_elem?, ok, Bool-cases, ◌==◌, ==_iff, ◌&&◌, bit_and, arith, ltb,
}
use app_card.Base.Bits.{holds_upto, by_table, bit_and_mask}
use mathlib.Core.List.{Mem, Memᴰ}
use mathlib.Core.HLevel.{⊥_prop}
use mathlib.Core.Logic.{∥∥₁_elim}
use mathlib.Core.List.Memᴰ.{head, tail, not-nil, cases_cons}
use native.Mathlib.Decide.{dec_lt}
use app_card.Nanopb.MessageDecoder.{
  Seen, all_seen, whole_words, End, required_count, check_required,
}
use app_card.Nanopb.Pb.{PbField, missing_required_field}
use app_card.Nanopb.Decoders.{Input}
use app_card.Nanopb.Runtime.{fail}
use app_card.Nanopb.MessageDecoder.Bits.{or_bits, or_bits-lt}
use app_card.Nanopb.MessageDecoder.Words.{
  marked, lows, highs, marked_words, low_full, high_full, highs-lt,
}

shifted : (r : ℕ) → r < 32 → (2 ^ 32 - 1) / 2 ^ (32 - r) ≡ 2 ^ r - 1
unfolding holds_upto
shifted = by_table 32 (λ r. (2 ^ 32 - 1) / 2 ^ (32 - r)) (λ r. 2 ^ r - 1) refl

-- What the check comes to, for the counts of the first word, of both, and of all fields.
all_seen_low : (r : ℕ) (seen : Seen) → r < 32 → 0 < r → all_seen r seen ≡ (seen.low == 2 ^ r - 1)
unfolding all_seen whole_words
all_seen_low r seen h pos =
    let mask : bit_and r 31 ≡ r = bit_and_mask 5 r ∙ omega arith in
    let none : r / 2 ^ 5 ≡ 0 = omega arith in
    let more : (r == 0) ≡ false = ground arith in rw (mask, none, more, shifted r h) refl

all_seen_high :
    (r : ℕ) (seen : Seen)
    → r < 32
    → 0 < r
    → all_seen (32 + r) seen ≡ (seen.low == 2 ^ 32 - 1 && seen.high == 2 ^ r - 1)
unfolding all_seen whole_words
all_seen_high r seen h pos =
    let mask : bit_and (32 + r) 31 ≡ r = bit_and_mask 5 (32 + r) ∙ omega arith in
    let one : (32 + r) / 2 ^ 5 ≡ 1 = omega arith in
    let more : (r == 0) ≡ false = ground arith in rw (mask, one, more, shifted r h) refl

all_seen_32 :
    (seen : Seen)
    → seen.high < 2 ^ 0
    → all_seen 32 seen ≡ (seen.low == 2 ^ 32 - 1 && seen.high == 2 ^ 0 - 1)
unfolding all_seen whole_words
all_seen_32 seen h = let clear : (seen.high == 0) ≡ true = ground arith in rw clear refl

and_true : (a b : Bool) → ((a && b) && true) ≡ (a && b)
and_true a b = ground arith

all_seen_64 : (seen : Seen) → all_seen 64 seen ≡ (seen.low == 2 ^ 32 - 1 && seen.high == 2 ^ 32 - 1)
unfolding all_seen whole_words
all_seen_64 seen = and_true (seen.low == 2 ^ 32 - 1) (seen.high == 2 ^ 32 - 1)

all_seen_both :
    (r : ℕ) (seen : Seen)
    → r ≤ 32
    → seen.high < 2 ^ r
    → all_seen (32 + r) seen ≡ (seen.low == 2 ^ 32 - 1 && seen.high == 2 ^ r - 1)
all_seen_both r seen h fits = elim (dec_lt r 32) [
  | no all ↦ let most : r ≡ 32 = omega arith in rw most (all_seen_64 seen)
  | yes lt ↦ elim (dec_lt 0 r) [
    | yes pos ↦ all_seen_high r seen lt pos
    | no none ↦
        let least : r ≡ 0 = omega arith in
        rw least (all_seen_32 seen (omega (arith, ap (λ (n : ℕ). 2 ^ n) least)))
  ]
]

both_iff : (a b c d : ℕ) → ((a == b && c == d) ≡ true) ↔ ((a ≡ b) × (c ≡ d))
both_iff a b c d = (λ h. ground arith, λ (p, q). ground (arith, p, q))

All-below : (n m : ℕ) (is : List ℕ) → n ≤ m → All (λ i. i < n) is → All (λ i. i < m) is
All-below n m [] h all = tt
All-below n m (i ∷ is) h all = (omega (arith, all.0), All-below n m is h all.1)

few_seen :
    (count : ℕ) (is : List ℕ)
    → 0 < count
    → count < 32
    → All (λ i. i < count) is
    → (all_seen count (marked is) ≡ true) ↔ ((i : ℕ) → i < count → Memᴰ i is)
few_seen count is pos h below =
    let words = marked_words is (All-below count 64 is (omega arith) below) in
    let (there, back) = low_full count is (omega arith) (inl below) in
    rw
      (
        words,
        all_seen_low count (record { low = or_bits (lows is); high = or_bits (highs is) }) h pos,
      )
      (
        λ e. there ((==_iff (or_bits (lows is)) (2 ^ count - 1)).0 e),
        λ all. (==_iff (or_bits (lows is)) (2 ^ count - 1)).1 (back all),
      )

many_seen :
    (r : ℕ) (is : List ℕ)
    → r ≤ 32
    → All (λ i. i < 32 + r) is
    → (all_seen (32 + r) (marked is) ≡ true) ↔ ((i : ℕ) → i < 32 + r → Memᴰ i is)
many_seen r is h below =
    let words = marked_words is (All-below (32 + r) 64 is (omega arith) below) in
    let (there, back) = low_full 32 is (omega arith) (inr refl) in
    let (there', back') = high_full r is below in
    let high_fits = or_bits-lt r (highs is) (rw (by r) (highs-lt (32 + r) is below)) in
    rw
      (
        words,
        all_seen_both r (record { low = or_bits (lows is); high = or_bits (highs is) }) h high_fits,
      )
      (
        λ e.
            let (low, high) =
              (both_iff (or_bits (lows is)) (2 ^ 32 - 1) (or_bits (highs is)) (2 ^ r - 1)).0 e in
            λ i lt. elim (dec_lt i 32) [
              | yes small ↦ there low i small
              | no big ↦
                  let index : i ≡ 32 + (i - 32) = omega arith in
                  subst (λ (j : ℕ). Memᴰ j is) (sym index) (there' high (i - 32) (omega arith))
            ],
        λ all.
            (both_iff (or_bits (lows is)) (2 ^ 32 - 1) (or_bits (highs is)) (2 ^ r - 1)).1
              (back (λ i lt. all i (omega arith)), back' (λ i lt. all (32 + i) (omega arith))),
      )
  where
    by : (n : ℕ) → n ≡ 32 + n - 32
    by n = omega arith

none_seen : (seen : Seen) → all_seen 0 seen ≡ true
unfolding all_seen whole_words
none_seen seen = refl

-- The check succeeds just if each of the first `count` required fields was seen.
all_seen-marked :
    (count : ℕ) (is : List ℕ)
    → count ≤ 64
    → All (λ i. i < count) is
    → (all_seen count (marked is) ≡ true) ↔ ((i : ℕ) → i < count → Memᴰ i is)
all_seen-marked count is h below = elim (dec_lt count 32) [
  | no many ↦
      let split : count ≡ 32 + (count - 32) = omega arith in
      subst (λ (n : ℕ). (all_seen n (marked is) ≡ true) ↔ ((i : ℕ) → i < n → Memᴰ i is)) (sym split)
        (many_seen (count - 32) is (omega arith) (All-below count _ is (omega arith) below))
  | yes few ↦ elim (dec_lt 0 count) [
    | yes pos ↦ few_seen count is pos few below
    | no none ↦
        let least : count ≡ 0 = omega arith in
        subst (λ (n : ℕ). (all_seen n (marked is) ≡ true) ↔ ((i : ℕ) → i < n → Memᴰ i is))
          (sym least) (λ e i lt. absurd (omega arith), λ all. none_seen (marked is))
  ]
]

dec_noted : (i : ℕ) (is : List ℕ) → Dec (Memᴰ i is)
dec_noted i [] = no not-nil
dec_noted i (k ∷ is) = elim (Bool-cases (i == k)) [
  | inl e ↦ yes (head ((==_iff i k).0 e))
  | inr ne ↦ elim (dec_noted i is) [
    | yes m ↦ yes (tail m)
    | no nm ↦
        no (λ m. elim (cases_cons m) [ inl e ↦ absurd (ground (arith, e, ne)) | inr m' ↦ nm m' ])
  ]
]

required_count-le : (end : End) (f : PbField) → required_count end f ≤ 64
required_count-le end f = ground arith

-- At the end of the table, where the required fields with the indices `is` were noted: the check of
-- `pb_decode_noinit` passes if these are all indices below the number of required fields, of which
-- it takes the first 64 into account, and otherwise fails with "missing required field".
pub check_required-marked :
    (is : List ℕ) (end : End) (f : PbField) (s : Input)
    → get_elem? end.iter.start end.iter.pos ≡ some f
    → All (λ i. i < required_count end f) is
    → (((i : ℕ) → i < required_count end f → Mem i is) → check_required (marked is) end s ≡ ok tt s)
      × ((i : ℕ)
          → i < required_count end f
          → ¬ Mem i is
          → check_required (marked is) end s ≡ fail missing_required_field s)
unfolding check_required
check_required-marked is end f s current below =
    let (there, back) = all_seen-marked (required_count end f) is (required_count-le end f) below in
    (
      λ all. let seen = back (λ i lt. seen_index i (all i lt)) in rw (current, seen) (ground arith),
      λ i lt missing. elim (Bool-cases (all_seen (required_count end f) (marked is))) [
        | inl seen ↦ absurd (missing ∣ there seen i lt ∣₁)
        | inr unseen ↦
            let some_required : ltb 0 (required_count end f) ≡ true = ground arith in
            rw (current, unseen, some_required) refl
      ],
    )
  where
    seen_index : (i : ℕ) → Mem i is → Memᴰ i is
    seen_index i m = elim (dec_noted i is) [ yes d ↦ d | no n ↦ absurd (∥∥₁_elim m ⊥_prop n) ]
