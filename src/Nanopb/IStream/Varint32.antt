-- ===== src/Nanopb/IStream/Varint32.antt =====
-- The 32-bit decoder, and what is built on it: tags, lengths and skipping.
use app_card.Base.{
  ℕ, zero, suc, ◌+◌, ◌*◌, ◌/◌, ◌%◌, ◌^◌, ◌≤◌, ◌<◌, ◌≡◌, refl, List, [], ◌∷◌, ◌++◌, arith, length,
  some, ok,
}
use app_card.Base.Bits.{bit_and_0x7f, bit_and_0x80, bit_and_0x70, bit_or_above, bit_and_7}
use app_card.Nanopb.OStream.Varint.{varint_of, varint, varint_of_small, varint_of_big, tag_number}
use app_card.Nanopb.IStream.{
  IStream, buf_read_callback, varint32_step, varint32_loop, pb_decode_varint32_eof,
  pb_decode_varint32, pb_decode_tag, pb_skip_string, pb_read_null,
}
use app_card.Nanopb.IStream.Contract.{
  after, Reads, pb_readbyte-Reads, pb_read_null-Reads, bind-Reads,
}
use app_card.Nanopb.IStream.Varint.{shift_seven, split_group}
use native.Mathlib.Decide.{dec_lt}

step32 :
    (byte bitpos acc : ℕ)
    → bitpos < 32
    → acc < 2 ^ bitpos
    → acc + byte % 128 * 2 ^ bitpos < 2 ^ 32
    → varint32_step byte bitpos acc ≡ some (acc + byte % 128 * 2 ^ bitpos)
unfolding varint32_step
step32 byte bitpos acc hp ha fits =
    ground (arith, bit_and_0x7f byte, bit_or_above bitpos acc (byte % 128) ha, no_wrap)
  where
    no_wrap : byte % 128 * 2 ^ bitpos % 2 ^ 32 ≡ byte % 128 * 2 ^ bitpos
    no_wrap = omega arith

last_byte :
    (fuel w bitpos acc : ℕ)
    → w < 128
    → bitpos < 32
    → acc < 2 ^ bitpos
    → acc + w * 2 ^ bitpos < 2 ^ 32
    → (bitpos ≡ 28 → w < 16)
    → Reads (varint32_loop (suc fuel) bitpos acc) (w ∷ []) (acc + w * 2 ^ bitpos)
unfolding varint32_loop
last_byte fuel w bitpos acc hw hp ha fits top s rest c e h = ground (
  arith,
  pb_readbyte-Reads w s rest c e h,
  bit_and_0x80 w,
  bit_and_0x70 w,
  step32 w bitpos acc hp ha,
)

inner_byte :
    (fuel g bitpos acc : ℕ) (s : IStream) (rest : List ℕ)
    → g < 128
    → bitpos < 32
    → acc < 2 ^ bitpos
    → acc + g * 2 ^ bitpos < 2 ^ 32
    → s.callback ≡ buf_read_callback
    → s.state ≡ (g + 128) ∷ rest
    → 0 < s.bytes_left
    → varint32_loop (suc fuel) bitpos acc s
      ≡ varint32_loop fuel (bitpos + 7) (acc + g * 2 ^ bitpos) (after ((g + 128) ∷ []) rest s)
unfolding varint32_loop
inner_byte fuel g bitpos acc s rest hg hp ha fits c e h = ground (
  arith,
  pb_readbyte-Reads (g + 128) s rest c e h,
  bit_and_0x80 (g + 128),
  step32 (g + 128) bitpos acc hp ha,
)

-- At the fifth byte only 4 bits are left.
top_byte : (v acc bitpos : ℕ) → acc + v * 2 ^ bitpos < 2 ^ 32 → bitpos ≡ 28 → v < 16
top_byte v acc bitpos fits q = let f : acc + v * 2 ^ 28 < 2 ^ 32 = rw q at fits in omega arith

not_last : (v acc j : ℕ) → j ≤ 4 → 128 ≤ v → acc + v * 2 ^ (7 * j) < 2 ^ 32 → j < 4
not_last v acc j hj big fits = elim (dec_lt j 4) [
  | yes h ↦ h
  | no h ↦
      let q : j ≡ 4 = omega arith in
      let f : acc + v * 2 ^ (7 * 4) < 2 ^ 32 = rw q at fits in absurd (omega arith)
]

small_eq :
    (k fuel v bitpos acc : ℕ)
    → v < 128
    → bitpos < 32
    → acc < 2 ^ bitpos
    → acc + v * 2 ^ bitpos < 2 ^ 32
    → Reads (varint32_loop (suc fuel) bitpos acc) (varint_of k v) (acc + v * 2 ^ bitpos)
small_eq k fuel v bitpos acc small hp ha fits =
    rw (varint_of_small k v small)
      (last_byte fuel v bitpos acc small hp ha fits (top_byte v acc bitpos fits))

-- At byte `j` of at most 5 the number `v` is still to come; more fuel than bytes is enough.
varint32_loop-eq :
    (k fuel v j acc : ℕ) (s : IStream) (rest : List ℕ)
    → s.bytes_left < fuel
    → j ≤ 4
    → v < 128 ^ suc k
    → acc < 2 ^ (7 * j)
    → acc + v * 2 ^ (7 * j) < 2 ^ 32
    → s.callback ≡ buf_read_callback
    → s.state ≡ varint_of k v ++ rest
    → length (varint_of k v) ≤ s.bytes_left
    → varint32_loop fuel (7 * j) acc s ≡ ok (acc + v * 2 ^ (7 * j)) (after (varint_of k v) rest s)
varint32_loop-eq k zero v j acc s rest hf hj hv ha fits c e h = absurd (omega arith)
varint32_loop-eq zero (suc fuel) v j acc s rest hf hj hv ha fits c e h =
    small_eq 0 fuel v (7 * j) acc (omega arith) (omega arith) ha fits s rest c e h
varint32_loop-eq (suc k) (suc fuel) v j acc s rest hf hj hv ha fits c e h = elim (dec_lt v 128) [
  | yes small ↦ small_eq (suc k) fuel v (7 * j) acc small (omega arith) ha fits s rest c e h
  | no big ↦
      let shape = varint_of_big k v (omega arith) in
      let tail = varint_of k (v / 128) in
      let acc' : ℕ = acc + v % 128 * 2 ^ (7 * j) in
      let next : 7 * (j + 1) ≡ 7 * j + 7 = omega arith in
      let left : suc (length tail) ≤ s.bytes_left = rw shape at h in
      let t = after ((v % 128 + 128) ∷ []) (tail ++ rest) s in
      let low : acc' < 2 ^ (7 * (j + 1)) = rw next (grind (arith, shift_seven (7 * j))) in
      let fits' : acc' + v / 128 * 2 ^ (7 * (j + 1)) < 2 ^ 32 =
        rw next (omega (arith, split_group v (7 * j))) in
      let one =
        inner_byte fuel (v % 128) (7 * j) acc s (tail ++ rest) (omega arith) (omega arith) ha
          (omega (arith, split_group v (7 * j))) c (rw shape at e) (omega arith) in
      let more =
        varint32_loop-eq k fuel (v / 128) (j + 1) acc' t rest (omega arith)
          (omega (arith, not_last v acc j hj (omega arith) fits)) (omega arith) low fits' c refl
          (omega arith) in
      rw shape (ground (arith, one, rw next at more, split_group v (7 * j)))
]

eof_one_byte : (v : ℕ) → v < 128 → Reads pb_decode_varint32_eof (v ∷ []) v
unfolding pb_decode_varint32_eof
eof_one_byte v hv s rest c e h = ground (arith, pb_readbyte-Reads v s rest c e h, bit_and_0x80 v)

eof_more_bytes :
    (v : ℕ)
    → 128 ≤ v
    → v < 2 ^ 32
    → Reads pb_decode_varint32_eof ((v % 128 + 128) ∷ varint_of 8 (v / 128)) v
unfolding pb_decode_varint32_eof
eof_more_bytes v big hv s rest c e h =
    let tail = varint_of 8 (v / 128) in
    let t = after ((v % 128 + 128) ∷ []) (tail ++ rest) s in
    ground (
      arith,
      pb_readbyte-Reads (v % 128 + 128) s (tail ++ rest) c e (omega arith),
      bit_and_0x80 (v % 128 + 128),
      bit_and_0x7f (v % 128 + 128),
      varint32_loop-eq 8 (t.bytes_left + 1) (v / 128) 1 (v % 128) t rest (omega arith) (omega arith)
          (omega arith) (omega arith) (omega arith) c refl (omega arith),
    )

-- `pb_decode_varint32_eof` reads back every 32-bit number in the varint format.
pub pb_decode_varint32_eof-varint : (v : ℕ) → v < 2 ^ 32 → Reads pb_decode_varint32_eof (varint v) v
unfolding varint
pb_decode_varint32_eof-varint v hv = elim (dec_lt v 128) [
  | yes small ↦ rw (varint_of_small 9 v small) (eof_one_byte v small)
  | no big ↦ rw (varint_of_big 8 v (omega arith)) (eof_more_bytes v (omega arith) hv)
]

pub pb_decode_varint32-varint : (v : ℕ) → v < 2 ^ 32 → Reads pb_decode_varint32 (varint v) v
unfolding pb_decode_varint32
pb_decode_varint32-varint v hv s rest c e h = rw (pb_decode_varint32_eof-varint v hv s rest c e h)

-- `pb_decode_tag` reads back what `pb_encode_tag` emits, and no field is taken for an end.
pub pb_decode_tag-varint :
    (wiretype field_number : ℕ)
    → wiretype < 8
    → 0 < field_number
    → field_number < 2 ^ 29
    → Reads pb_decode_tag
        (varint (tag_number wiretype field_number))
        (record { wire_type = wiretype; tag = field_number })
unfolding pb_decode_tag
pb_decode_tag-varint wiretype field_number hw pos hf s rest c e h =
    let n : ℕ = tag_number wiretype field_number in
    ground (arith, pb_decode_varint32_eof-varint n (omega arith) s rest c e h, bit_and_7 n)

-- Skipping a length-prefixed field takes the prefix and the bytes.
pub pb_skip_string-Reads :
    (bs : List ℕ) → length bs < 2 ^ 32 → Reads pb_skip_string (varint (length bs) ++ bs) tt
unfolding pb_skip_string
pb_skip_string-Reads bs h =
    bind-Reads pb_decode_varint32 pb_read_null (varint (length bs)) bs
      (pb_decode_varint32-varint (length bs) h) (pb_read_null-Reads bs)
