-- ===== src/Nanopb/DecodeField/Integers.antt =====
-- The reading of an integer takes a byte at least, and its store keeps to the item.
use app_card.Base.{
  ℕ, ◌*◌, ◌%◌, ◌^◌, ◌≤◌, ◌<◌, inl, inr, Bool-cases, ◌==◌, ◌||◌, bit_or, bit_and, Run, ok, failed,
  fault, stuck, and_then, pure, forget, arith,
}
use app_card.Nanopb.Memory.{store, le_bytes}
use app_card.Nanopb.Memory.Laws.{length-le_bytes}
use app_card.Nanopb.IStream.{
  IStream, Decoder, pb_readbyte, varint_loop, pb_decode_varint, pb_decode_varint32_eof,
  pb_decode_varint32, varint32_after, at_eof, not_eof,
}
use app_card.Nanopb.IStream.Safety.{
  Follows, Settled, IsReadable, Follows-refl, Follows-trans, Follows-IsReadable, with_message,
  ReadsByte, readbyte_lem, if-Settled, varint_loop-Settled,
}
use app_card.Nanopb.IStream.Settles.{varint32_after-Settles}
use app_card.Nanopb.Encoders.{int_size}
use app_card.Nanopb.Decoders.{
  Input, FieldDecoder, on_stream, unzigzag, pb_decode_svarint, store_clamped,
}
use app_card.Nanopb.Decoders.Confined.{Within, same, store_bytes-Within}
use app_card.Nanopb.DecodeField.Arrays.{DecodesItem}
use app_card.Nanopb.DecodeField.Items.{ReadsSome}

-- What follows the first byte does not give it back.
after_byte :
    {s : IStream} (r : Run IStream (Unit {0}) ℕ) (k : ℕ → Decoder ℕ)
    → IsReadable s
    → ReadsByte s r
    → ((b : ℕ) (t : IStream) → IsReadable t → Settled t (k b t))
    → ReadsSome s (and_then r k)
unfolding ReadsByte
after_byte {s} (ok b t) k h p next = more (k b t) (next b t (Follows-IsReadable p.0 h))
  where
    more : (r : Run IStream (Unit {0}) ℕ) → Settled t r → ReadsSome s r
    more (ok v u) q = (Follows-trans p.0 q, omega (arith, p.1, q.bytes_left))
    more (failed e u) q = Follows-trans p.0 q
    more fault q = q
    more stuck q = q
after_byte (failed e t) k h p next = p
after_byte fault k h p next = p
after_byte stuck k h p next = p

pub pb_decode_varint-ReadsSome : (s : IStream) → IsReadable s → ReadsSome s (pb_decode_varint s)
unfolding pb_decode_varint varint_loop
pb_decode_varint-ReadsSome s h = after_byte (pb_readbyte s) _ h (readbyte_lem s h) λ b t ht.
    if-Settled (bit_and b 0x80 == 0) _ _ t (λ _. Follows-refl t)
      (λ _.
        varint_loop-Settled 10 7 (bit_or 0 (bit_and b 0x7f * 2 ^ 0 % 2 ^ 64)) t ht (omega arith)
          (omega arith))

after_first_byte :
    {s : IStream} (r : Run IStream (Unit {0}) ℕ)
    → IsReadable s
    → ReadsByte s r
    → ReadsSome s (forget (and_then (at_eof r) (λ byte t. not_eof (varint32_after byte t))))
unfolding ReadsByte
after_first_byte {s} (ok b t) h p =
    more (varint32_after b t) (varint32_after-Settles b t (Follows-IsReadable p.0 h))
  where
    more : (r : Run IStream (Unit {0}) ℕ) → Settled t r → ReadsSome s (forget (not_eof r))
    more (ok v u) q = (Follows-trans p.0 q, omega (arith, p.1, q.bytes_left))
    more (failed e u) q = Follows-trans p.0 q
    more fault q = q
    more stuck q = q
after_first_byte (failed e t) h p = p
after_first_byte fault h p = p
after_first_byte stuck h p = p

pub pb_decode_varint32-ReadsSome : (s : IStream) → IsReadable s → ReadsSome s (pb_decode_varint32 s)
unfolding pb_decode_varint32 pb_decode_varint32_eof
pb_decode_varint32-ReadsSome s h = after_first_byte (pb_readbyte s) h (readbyte_lem s h)

svarint_step :
    (s : IStream) (r : Run IStream (Unit {0}) ℕ)
    → ReadsSome s r
    → ReadsSome s (and_then r (λ v. pure (unzigzag v)))
svarint_step s (ok v t) h = h
svarint_step s (failed e t) h = h
svarint_step s fault h = h
svarint_step s stuck h = h

pub pb_decode_svarint-ReadsSome : (s : IStream) → IsReadable s → ReadsSome s (pb_decode_svarint s)
unfolding pb_decode_svarint
pb_decode_svarint-ReadsSome s h =
    svarint_step s (pb_decode_varint s) (pb_decode_varint-ReadsSome s h)

pub store-Within : (n k v a : ℕ) (s : Input) → n ≤ k → Within a k s.memory (store n v s.memory a)
unfolding store
store-Within n k v a s h =
    store_bytes-Within a k s.memory s.memory (le_bytes n v) a (omega arith)
      (omega (arith, length-le_bytes n v)) same

-- A number that is read, and then stored in an item with room for it or refused.
pub stored-DecodesItem :
    (k a : ℕ) (s : Input) (r : Run IStream (Unit {0}) ℕ) (f : ℕ → FieldDecoder)
    → ReadsSome s.stream r
    → ((v : ℕ) (t : IStream)
        → Follows s.stream t
        → t.bytes_left < s.stream.bytes_left
        → DecodesItem a k s (f v (record { stream = t; memory = s.memory })))
    → DecodesItem a k s (and_then (on_stream s.memory r) f)
stored-DecodesItem k a s (ok v t) f h next = next v t h.0 h.1
stored-DecodesItem k a s (failed e t) f h next = (h, same)
stored-DecodesItem k a s fault f h next = h
stored-DecodesItem k a s stuck f h next = h

pub clamped-DecodesItem :
    (widen : ℕ → ℕ → ℕ) (value a size : ℕ) (s : Input) (t : IStream)
    → Follows s.stream t
    → t.bytes_left < s.stream.bytes_left
    → DecodesItem a size s
        (store_clamped widen value a (int_size size) (record { stream = t; memory = s.memory }))
clamped-DecodesItem widen value a size s t follows less =
    elim (Bool-cases (size == 1 || size == 2 || size == 4 || size == 8)) [
      | inl known ↦ rw known (elim (Bool-cases (widen size (value % 2 ^ (8 * size)) == value)) [
        | inl kept ↦
            rw kept
              (follows, less, store-Within size size (value % 2 ^ (8 * size)) a s (omega arith))
        | inr lost ↦ rw lost (
          Follows-trans follows (with_message t),
          store-Within size size (value % 2 ^ (8 * size)) a s (omega arith),
        )
      ])
      | inr unknown ↦ rw unknown (Follows-trans follows (with_message t), same)
    ]
