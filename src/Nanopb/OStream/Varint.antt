-- ===== src/Nanopb/OStream/Varint.antt =====
-- The wire format of integers and tags, and that the encoders emit it.
use app_card.Base.{
  ℕ, zero, suc, ◌+◌, ◌-◌, ◌*◌, ◌/◌, ◌%◌, ◌^◌, ◌≤◌, ◌<◌, ◌≡◌, refl, ap, ◌∙◌, ◌≢◌, some, List, [],
  ◌∷◌, ◌++◌, arith, length, ltb, leb, bit_and, bit_or, if◌then◌else◌, All,
}
use app_card.Base.Bits.{bit_and_0x7f, bit_or_0x80, bit_or_below}
use app_card.Nanopb.OStream.{
  pb_write, varint_loop, unset_top_bit_of_last, write_all, write_digits, pb_encode_varint,
  pb_encode_svarint, pb_encode_tag, pb_encode_string,
}
use app_card.Nanopb.OStream.Contract.{Emits, pb_write-Emits, seq-Emits}
use native.Mathlib.Decide.{dec_lt}

-- The base 128 digits of `v`, lowest first and marked but for the last; `k` more may follow the first.
unfoldable pub varint_of : ℕ → ℕ → List ℕ
varint_of zero v = v ∷ []
varint_of (suc k) v =
    let rest = varint_of k (v / 128) in if ltb v 128 then v ∷ [] else (v % 128 + 128) ∷ rest

-- A 64-bit number in the varint format.
unfoldable pub varint : ℕ → List ℕ
varint v = varint_of 9 v

pub varint_of_small : (k v : ℕ) → v < 128 → varint_of k v ≡ v ∷ []
unfolding varint_of
varint_of_small zero v h = refl
varint_of_small (suc k) v h = ground arith

pub varint_of_big :
    (k v : ℕ) → 128 ≤ v → varint_of (suc k) v ≡ (v % 128 + 128) ∷ varint_of k (v / 128)
unfolding varint_of
varint_of_big k v h = ground arith

-- A varint has 1 to 10 bytes.
varint_of-length : (k v : ℕ) → (1 ≤ length (varint_of k v)) × (length (varint_of k v) ≤ k + 1)
unfolding varint_of
varint_of-length zero v = omega arith
varint_of-length (suc k) v = ground (arith, varint_of-length k (v / 128))

pub length-varint : (v : ℕ) → (1 ≤ length (varint v)) × (length (varint v) ≤ 10)
unfolding varint
length-varint v = omega (arith, varint_of-length 9 v)

varint_of-IsByte : (k v : ℕ) → v < 128 ^ suc k → All (λ b. b < 256) (varint_of k v)
unfolding varint_of
varint_of-IsByte zero v h = omega arith
varint_of-IsByte (suc k) v h = ground (arith, varint_of-IsByte k (v / 128) (omega arith))

pub varint-IsByte : (v : ℕ) → v < 2 ^ 64 → All (λ b. b < 256) (varint v)
unfolding varint
varint-IsByte v h = varint_of-IsByte 9 v (omega arith)

marked : (v : ℕ) → bit_or (bit_and v 0x7f) 0x80 % 2 ^ 8 ≡ v % 128 + 128
marked v = rw bit_and_0x7f (omega (arith, bit_or_0x80 (v % 128) (omega arith)))

-- A number that is not 0 and fits the room fills some of the buffer, and the format comes out.
loop_fills :
    (k v : ℕ)
    → v ≢ 0
    → v < 128 ^ suc k
    → (c : ℕ) × (cs : List ℕ) × (varint_loop (suc k) v ≡ some (c ∷ cs))
      × (unset_top_bit_of_last (c ∷ cs) ≡ some (varint_of k v))
unfolding varint_loop unset_top_bit_of_last varint_of
loop_fills zero v ne h =
    (v % 128 + 128, [], ground (arith, marked v), ground (arith, bit_and_0x7f (v % 128 + 128)))
loop_fills (suc k) v ne h = elim (dec_lt v 128) [
  | yes small ↦
      (v % 128 + 128, [], ground (arith, marked v), ground (arith, bit_and_0x7f (v % 128 + 128)))
  | no big ↦
      let (c, cs, fills, ends) = loop_fills k (v / 128) (omega arith) (omega arith) in
      (v % 128 + 128, c ∷ cs, ground (arith, marked v), ground arith)
]

long_varint :
    (v : ℕ)
    → v ≢ 0
    → v < 2 ^ 64
    → write_digits (varint_loop 10 v) ≡ pb_write (varint_of 9 v) (length (varint_of 9 v))
long_varint v ne h =
    let (c, cs, fills, ends) = loop_fills 9 v ne (omega arith) in rw fills (ap write_all ends)

-- `pb_encode_varint` writes the varint format in one call, and its buffer of 10 bytes suffices.
pub pb_encode_varint-eq :
    (v : ℕ) → v < 2 ^ 64 → pb_encode_varint v ≡ pb_write (varint v) (length (varint v))
unfolding pb_encode_varint varint
pb_encode_varint-eq v h = elim (dec_lt 0x7f v) [
  | yes big ↦ if_big big ∙ long_varint v (omega arith) h
  | no small ↦ if_small (omega arith)
]
  where
    if_big : 0x7f < v → pb_encode_varint v ≡ write_digits (varint_loop 10 v)
    if_big big = ground arith

    if_small : v < 128 → pb_encode_varint v ≡ pb_write (varint v) (length (varint v))
    if_small small = rw (varint_of_small 9 v small) (ground arith)

pub pb_encode_varint-Emits : (v : ℕ) → v < 2 ^ 64 → Emits (pb_encode_varint v) (varint v)
pb_encode_varint-Emits v h = rw (pb_encode_varint-eq v h) (pb_write-Emits (varint v))

-- The zigzag number of a two's complement bit pattern.
unfoldable pub zigzag : ℕ → ℕ
zigzag v = if ltb v (2 ^ 63) then 2 * v else 2 * (2 ^ 64 - v) - 1

pub pb_encode_svarint-Emits : (v : ℕ) → v < 2 ^ 64 → Emits (pb_encode_svarint v) (varint (zigzag v))
unfolding pb_encode_svarint zigzag
pb_encode_svarint-Emits v h = rw shifts (pb_encode_varint-Emits (zigzag v) (ground arith))
  where
    shifts : (let t = v * 2 % 2 ^ 64 in if leb (2 ^ 63) v then 2 ^ 64 - 1 - t else t) ≡ zigzag v
    shifts = ground arith

-- A tag's number on the wire.
abbrev pub tag_number : ℕ → ℕ → ℕ
tag_number wiretype field_number = wiretype + field_number * 8

pub pb_encode_tag-Emits :
    (wiretype field_number : ℕ)
    → wiretype < 8
    → field_number < 2 ^ 32
    → Emits (pb_encode_tag wiretype field_number) (varint (tag_number wiretype field_number))
unfolding pb_encode_tag
pb_encode_tag-Emits wiretype field_number hw hf =
    rw packs (pb_encode_varint-Emits (tag_number wiretype field_number) (omega arith))
  where
    packs : bit_or (field_number * 2 ^ 3 % 2 ^ 64) wiretype ≡ tag_number wiretype field_number
    packs = rw no_wrap (bit_or_below 3 field_number wiretype hw)
      where
        no_wrap : field_number * 2 ^ 3 % 2 ^ 64 ≡ field_number * 2 ^ 3
        no_wrap = omega arith

pub pb_encode_string-Emits :
    (bs : List ℕ)
    → length bs < 2 ^ 64
    → Emits (pb_encode_string bs (length bs)) (varint (length bs) ++ bs)
unfolding pb_encode_string
pb_encode_string-Emits bs h = seq-Emits (pb_encode_varint-Emits (length bs) h) (pb_write-Emits bs)
