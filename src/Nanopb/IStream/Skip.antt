-- ===== src/Nanopb/IStream/Skip.antt =====
-- Skipping a field takes just the field, whatever is behind it.
use app_card.Base.{
  ℕ, zero, suc, ◌+◌, ◌^◌, ◌≤◌, ◌<◌, ◌≡◌, refl, List, [], ◌∷◌, ◌++◌, arith, length, ok, subst,
}
use app_card.Base.Bits.{bit_and_0x80}
use app_card.Nanopb.OStream.Varint.{varint}
use app_card.Nanopb.IStream.{skip_varint_loop, pb_skip_varint, pb_skip_field, pb_read_null}
use app_card.Nanopb.IStream.Contract.{after, Reads, pb_read-Reads, pb_read_null-Reads}
use app_card.Nanopb.IStream.Varint32.{pb_skip_string-Reads}

-- Bytes from 128 on and a last byte below.
pub data IsVarint : List ℕ → Type 0 where
  last_group : {b : ℕ} → b < 128 → IsVarint (b ∷ [])
  group : {b : ℕ} {bs : List ℕ} → 128 ≤ b → b < 256 → IsVarint bs → IsVarint (b ∷ bs)

-- What a field of a wire type has behind its tag, as the protocol buffer encoding describes it.
pub data IsValue (wire_type : ℕ) (bs : List ℕ) : Type 0 where
  varint_value : wire_type ≡ 0 → IsVarint bs → IsValue wire_type bs
  eight_bytes : wire_type ≡ 1 → length bs ≡ 8 → IsValue wire_type bs
  prefixed_value :
      (body : List ℕ)
      → wire_type ≡ 2
      → length body < 2 ^ 32
      → bs ≡ varint (length body) ++ body
      → IsValue wire_type bs
  four_bytes : wire_type ≡ 5 → length bs ≡ 4 → IsValue wire_type bs

pub IsValue-lt : {wire_type : ℕ} {bs : List ℕ} → IsValue wire_type bs → wire_type < 8
IsValue-lt (varint_value w v) = omega (arith, w)
IsValue-lt (eight_bytes w size) = omega (arith, w)
IsValue-lt (prefixed_value body w short format) = omega (arith, w)
IsValue-lt (four_bytes w size) = omega (arith, w)

skip_varint_loop-Reads :
    {bs : List ℕ} (fuel : ℕ) → IsVarint bs → length bs ≤ fuel → Reads (skip_varint_loop fuel) bs tt
unfolding skip_varint_loop
skip_varint_loop-Reads zero (last_group low) enough s rest c e h = absurd (omega arith)
skip_varint_loop-Reads zero (group low high v) enough s rest c e h = absurd (omega arith)
skip_varint_loop-Reads (suc fuel) (last_group {b} small) enough s rest c e h =
    ground (arith, pb_read-Reads (b ∷ []) s rest c e h, bit_and_0x80 b)
skip_varint_loop-Reads (suc fuel) (group {b} {bs} low high v) enough s rest c e h = ground (
  arith,
  pb_read-Reads (b ∷ []) s (bs ++ rest) c e (omega arith),
  bit_and_0x80 b,
  skip_varint_loop-Reads fuel v (omega arith) (after (b ∷ []) (bs ++ rest) s) rest c refl
      (omega arith),
)

pub pb_skip_field-Reads :
    (wire_type : ℕ) (bs : List ℕ) → IsValue wire_type bs → Reads (pb_skip_field wire_type) bs tt
unfolding pb_skip_field pb_skip_varint
pb_skip_field-Reads wire_type bs (varint_value w v) s rest c e h =
    rw w (skip_varint_loop-Reads (s.bytes_left + 1) v (omega arith) s rest c e h)
pb_skip_field-Reads wire_type bs (eight_bytes w size) s rest c e h = rw w (
    subst (λ (n : ℕ). pb_read_null n s ≡ ok tt (after bs rest s)) size
      (pb_read_null-Reads bs s rest c e h))
pb_skip_field-Reads wire_type bs (prefixed_value body w short format) s rest c e h =
    rw w (rw format (pb_skip_string-Reads body short s rest c (rw (← format) e) (rw (← format) h)))
pb_skip_field-Reads wire_type bs (four_bytes w size) s rest c e h = rw w (
    subst (λ (n : ℕ). pb_read_null n s ≡ ok tt (after bs rest s)) size
      (pb_read_null-Reads bs s rest c e h))
