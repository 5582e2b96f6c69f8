-- ===== src/Nanopb/RoundTrip/Scalar.antt =====
-- What the encoder writes for a number in a message is what the decoder stores a number from.
use app_card.Base.{ℕ, ◌^◌, ◌<◌, ◌≡◌, refl, List, some, arith}
use app_card.Nanopb.Pb.{
  PbField, atype, htype, ltype, atype_static, htype_required, ltype_varint, ltype_uvarint,
  ltype_svarint, ltype_fixed32, ltype_fixed64, wt_varint, wt_32bit, wt_64bit,
}
use app_card.Nanopb.Memory.{Memory, load, le_bytes, sign_extend}
use app_card.Nanopb.Memory.Laws.{load-lt}
use app_card.Nanopb.OStream.{wire_type_of}
use app_card.Nanopb.OStream.Varint.{varint, zigzag}
use app_card.Nanopb.Encoders.Emit.{IsBytes, IsIntSize, int_size-eq}
use app_card.Nanopb.Environment.{Environment}
use app_card.Nanopb.MessageEncoder.Wire.{Wire, value_bytes}
use app_card.Nanopb.Decoders.{pb_dec_fixed32, pb_dec_fixed64}
use app_card.Nanopb.Decoders.Stores.{
  Stores, pb_dec_varint-Stores, pb_dec_uvarint-Stores, pb_dec_svarint-Stores,
}
use app_card.Nanopb.RoundTrip.Fixed.{pb_dec_fixed32-Stores, pb_dec_fixed64-Stores}
use app_card.Nanopb.Runtime.{Runtime}
use app_card.Nanopb.DecodeField.{MessageDecoder, pb_decoders}

-- A field of a number type, of a size that its numbers can have.
pub data IsNumberType (f : PbField) : Type 0 where
  signed_type : ltype f.type ≡ ltype_varint → IsIntSize f.data_size → IsNumberType f
  unsigned_type : ltype f.type ≡ ltype_uvarint → IsIntSize f.data_size → IsNumberType f
  zigzag_type : ltype f.type ≡ ltype_svarint → IsIntSize f.data_size → IsNumberType f
  fixed32_type : ltype f.type ≡ ltype_fixed32 → f.data_size ≡ 4 → IsNumberType f
  fixed64_type : ltype f.type ≡ ltype_fixed64 → f.data_size ≡ 8 → IsNumberType f

-- The bytes on the wire of the number of a field at `src`.
pub record Coded (rt : Runtime) (env : Environment) (m : Memory) (f : PbField) (src : ℕ)
    : Type 0 where
  pub wire_type : ℕ
  pub bytes : List ℕ
  pub wire_type_is : wire_type_of (ltype f.type) ≡ some wire_type
  pub small : wire_type < 8
  pub encoded :
      (message : List PbField → ℕ → Wire)
      → value_bytes env m message (ltype f.type) f src ≡ some bytes
  pub decoded :
      (message message_noinit : MessageDecoder) (dest : ℕ)
      → Stores
          (pb_decoders rt message message_noinit (ltype f.type) f dest)
          bytes
          f.data_size
          (load f.data_size m src)
          dest

pub coded :
    (rt : Runtime) (env : Environment) (m : Memory) (f : PbField) (src : ℕ)
    → IsBytes m
    → IsNumberType f
    → Coded rt env m f src
unfolding wire_type_of value_bytes pb_decoders pb_dec_fixed32 pb_dec_fixed64
coded rt env m f src is_bytes (signed_type e size) = record {
  wire_type = wt_varint;
  bytes = varint (sign_extend f.data_size (load f.data_size m src));
  wire_type_is = rw e refl;
  small = omega arith;
  encoded = λ message. rw (e, int_size-eq f.data_size size) refl;
  decoded = λ message message_noinit dest s rest. rw e (
      pb_dec_varint-Stores f dest (load f.data_size m src) size (load-lt f.data_size m src is_bytes)
        s rest);
}
coded rt env m f src is_bytes (unsigned_type e size) = record {
  wire_type = wt_varint;
  bytes = varint (load f.data_size m src);
  wire_type_is = rw e refl;
  small = omega arith;
  encoded = λ message. rw (e, int_size-eq f.data_size size) refl;
  decoded = λ message message_noinit dest s rest. rw e (
      pb_dec_uvarint-Stores f dest (load f.data_size m src) size
        (load-lt f.data_size m src is_bytes) s rest);
}
coded rt env m f src is_bytes (zigzag_type e size) = record {
  wire_type = wt_varint;
  bytes = varint (zigzag (sign_extend f.data_size (load f.data_size m src)));
  wire_type_is = rw e refl;
  small = omega arith;
  encoded = λ message. rw (e, int_size-eq f.data_size size) refl;
  decoded = λ message message_noinit dest s rest. rw e (
      pb_dec_svarint-Stores f dest (load f.data_size m src) size
        (load-lt f.data_size m src is_bytes) s rest);
}
coded rt env m f src is_bytes (fixed32_type e size) = record {
  wire_type = wt_32bit;
  bytes = le_bytes 4 (load 4 m src);
  wire_type_is = rw e refl;
  small = omega arith;
  encoded = λ message. rw e refl;
  decoded = λ message message_noinit dest s rest.
      rw (e, size) (pb_dec_fixed32-Stores f (load 4 m src) dest (load-lt 4 m src is_bytes) s rest);
}
coded rt env m f src is_bytes (fixed64_type e size) = record {
  wire_type = wt_64bit;
  bytes = le_bytes 8 (load 8 m src);
  wire_type_is = rw e refl;
  small = omega arith;
  encoded = λ message. rw e refl;
  decoded = λ message message_noinit dest s rest.
      rw (e, size) (pb_dec_fixed64-Stores f (load 8 m src) dest (load-lt 8 m src is_bytes) s rest);
}

-- A required number with its place in the message.
pub record IsNumber (f : PbField) : Type 0 where
  pub static : atype f.type ≡ atype_static
  pub required : htype f.type ≡ htype_required
  pub tag_small : f.tag < 2 ^ 29
  pub number : IsNumberType f
