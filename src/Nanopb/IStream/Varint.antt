-- ===== src/Nanopb/IStream/Varint.antt =====
-- The decoders of integers read back what the encoders of integers emit.
use app_card.Base.{
  ℕ, zero, suc, ◌+◌, ◌*◌, ◌/◌, ◌%◌, ◌^◌, ◌≤◌, ◌<◌, ◌≡◌, refl, ap, List, [], ◌∷◌, ◌++◌, arith,
  bit_or,
}
use app_card.Base.Bits.{bit_and_0x7f, bit_and_0x80, bit_or_above}
use app_card.Nanopb.OStream.Varint.{varint_of, varint, varint_of_small, varint_of_big}
use app_card.Nanopb.IStream.{IStream, buf_read_callback, varint_loop, pb_decode_varint}
use app_card.Nanopb.IStream.Contract.{after, Reads, pb_readbyte-Reads}
use native.Mathlib.Decide.{dec_lt}
use native.Mathlib.Nat.{div-add-mod}
use native.Mathlib.Numerals.{towards_suc}

-- What one byte adds to the result so far.
add_group :
    (acc g bitpos : ℕ)
    → acc < 2 ^ bitpos
    → acc + g * 2 ^ bitpos < 2 ^ 64
    → bit_or acc (g * 2 ^ bitpos % 2 ^ 64) ≡ acc + g * 2 ^ bitpos
add_group acc g bitpos h fits = rw no_wrap (bit_or_above bitpos acc g h)
  where
    no_wrap : g * 2 ^ bitpos % 2 ^ 64 ≡ g * 2 ^ bitpos
    no_wrap = omega arith

last_byte :
    (fuel w bitpos acc : ℕ)
    → w < 128
    → bitpos < 64
    → acc < 2 ^ bitpos
    → acc + w * 2 ^ bitpos < 2 ^ 64
    → Reads (varint_loop (suc fuel) bitpos acc) (w ∷ []) (acc + w * 2 ^ bitpos)
unfolding varint_loop
last_byte fuel w bitpos acc hw hp ha fits s rest c e h = ground (
  arith,
  pb_readbyte-Reads w s rest c e h,
  bit_and_0x7f w,
  bit_and_0x80 w,
  add_group acc w bitpos ha fits,
)

inner_byte :
    (fuel g bitpos acc : ℕ) (s : IStream) (rest : List ℕ)
    → g < 128
    → bitpos < 64
    → acc < 2 ^ bitpos
    → acc + g * 2 ^ bitpos < 2 ^ 64
    → s.callback ≡ buf_read_callback
    → s.state ≡ (g + 128) ∷ rest
    → 0 < s.bytes_left
    → varint_loop (suc fuel) bitpos acc s
      ≡ varint_loop fuel (bitpos + 7) (acc + g * 2 ^ bitpos) (after ((g + 128) ∷ []) rest s)
unfolding varint_loop
inner_byte fuel g bitpos acc s rest hg hp ha fits c e h = ground (
  arith,
  pb_readbyte-Reads (g + 128) s rest c e h,
  bit_and_0x7f (g + 128),
  bit_and_0x80 (g + 128),
  add_group acc g bitpos ha fits,
)

pub shift_seven : (s : ℕ) → 2 ^ (s + 7) ≡ 128 * 2 ^ s
shift_seven s = simp towards_suc (omega arith)

-- The lowest group of `w` and the rest, both shifted by `s`.
pub split_group : (v j : ℕ) → v % 128 * 2 ^ j + v / 128 * 2 ^ (j + 7) ≡ v * 2 ^ j
split_group v j = rw (shift_seven j) (sums (2 ^ j))
  where
    sums : (unit : ℕ) → v % 128 * unit + v / 128 * (128 * unit) ≡ v * unit
    sums unit = omega (arith, ap (λ (t : ℕ). t * unit) (div-add-mod v 128))

-- A marked byte in front of what reads the rest.
marked_byte :
    (k fuel v bitpos acc : ℕ)
    → bitpos < 64
    → acc < 2 ^ bitpos
    → acc + v * 2 ^ bitpos < 2 ^ 64
    → Reads
        (varint_loop fuel (bitpos + 7) (acc + v % 128 * 2 ^ bitpos))
        (varint_of k (v / 128))
        (acc + v % 128 * 2 ^ bitpos + v / 128 * 2 ^ (bitpos + 7))
    → Reads
        (varint_loop (suc fuel) bitpos acc)
        ((v % 128 + 128) ∷ varint_of k (v / 128))
        (acc + v * 2 ^ bitpos)
marked_byte k fuel v bitpos acc hp ha fits more s rest c e h =
    let tail = varint_of k (v / 128) in
    let fits' : acc + v % 128 * 2 ^ bitpos < 2 ^ 64 = omega (arith, split_group v bitpos) in
    ground (
      arith,
      split_group v bitpos,
      inner_byte fuel (v % 128) bitpos acc s (tail ++ rest) (omega arith) hp ha fits' c e
          (omega arith),
      more (after ((v % 128 + 128) ∷ []) (tail ++ rest) s) rest c refl (omega arith),
    )

-- `v` is what is still to be read, and it counts from bit `7 * j` on.
varint_loop-Reads :
    (k fuel v j acc : ℕ)
    → k < fuel
    → j + k ≤ 9
    → v < 128 ^ suc k
    → acc < 2 ^ (7 * j)
    → acc + v * 2 ^ (7 * j) < 2 ^ 64
    → Reads (varint_loop fuel (7 * j) acc) (varint_of k v) (acc + v * 2 ^ (7 * j))
varint_loop-Reads zero (suc fuel) v j acc hf hj hv ha fits =
    rw (varint_of_small 0 v (omega arith))
      (last_byte fuel v (7 * j) acc (omega arith) (omega arith) ha fits)
varint_loop-Reads (suc k) (suc fuel) v j acc hf hj hv ha fits = elim (dec_lt v 128) [
  | yes small ↦
      rw (varint_of_small (suc k) v small)
        (last_byte fuel v (7 * j) acc small (omega arith) ha fits)
  | no big ↦
      let next : 7 * (j + 1) ≡ 7 * j + 7 = omega arith in
      let low : acc + v % 128 * 2 ^ (7 * j) < 2 ^ (7 * (j + 1)) =
        rw next (grind (arith, shift_seven (7 * j))) in
      let fits' : acc + v % 128 * 2 ^ (7 * j) + v / 128 * 2 ^ (7 * (j + 1)) < 2 ^ 64 =
        rw next (omega (arith, split_group v (7 * j))) in
      rw (varint_of_big k v (omega arith)) (
        marked_byte k fuel v (7 * j) acc (omega arith) ha fits (
          rw next at (
            varint_loop-Reads k fuel (v / 128) (j + 1) (acc + v % 128 * 2 ^ (7 * j)) (omega arith)
              (omega arith) (omega arith) low fits')))
]
varint_loop-Reads k zero v j acc hf hj hv ha fits = absurd (omega arith)

-- `pb_decode_varint` reads back every 64-bit number that `pb_encode_varint` emits.
pub pb_decode_varint-varint : (v : ℕ) → v < 2 ^ 64 → Reads pb_decode_varint (varint v) v
unfolding pb_decode_varint varint
pb_decode_varint-varint v h s rest c e l = ground (
  arith,
  varint_loop-Reads 9 11 v 0 0 (omega arith) (omega arith) (omega arith) (omega arith) (omega arith)
      s rest c e l,
)
