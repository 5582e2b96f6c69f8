-- ===== src/Nanopb/RoundTrip.antt =====
-- pb_encode.c against pb_decode.c: what is encoded to a buffer with room is what is decoded from
-- a buffer that begins with those bytes.
pub mod Bytes
pub mod Fixed
pub mod Scalar
pub mod Round
pub mod Layout
pub mod Takes
pub mod Finish
pub mod Loop
pub mod Fills
pub mod Format
pub mod Start
pub mod Message
pub mod Delimited
pub mod Missing
use app_card.Base.{ℕ, ◌+◌, ◌^◌, ◌≤◌, ◌<◌, ◌≡◌, List, ◌++◌, length, ok, arith}
use app_card.Nanopb.Pb.{PbField}
use app_card.Nanopb.Memory.{Memory, load, store, sign_extend}
use app_card.Nanopb.Memory.Laws.{load-lt}
use app_card.Nanopb.OStream.{
  OStream, buf_write_callback, pb_encode_varint, pb_encode_svarint, pb_encode_tag, pb_encode_string,
}
use app_card.Nanopb.OStream.Contract.{stored}
use app_card.Nanopb.OStream.Varint.{
  varint, zigzag, tag_number, pb_encode_varint-Emits, pb_encode_svarint-Emits, pb_encode_tag-Emits,
  pb_encode_string-Emits,
}
use app_card.Nanopb.IStream.{
  IStream, buf_read_callback, pb_decode_varint, pb_decode_varint32, pb_decode_tag, pb_skip_string,
}
use app_card.Nanopb.IStream.Contract.{after}
use app_card.Nanopb.IStream.Varint.{pb_decode_varint-varint}
use app_card.Nanopb.IStream.Varint32.{
  pb_decode_varint32-varint, pb_decode_tag-varint, pb_skip_string-Reads,
}
use app_card.Nanopb.Encoders.{pb_enc_varint, pb_enc_uvarint, pb_enc_svarint}
use app_card.Nanopb.Encoders.Emit.{
  IsBytes, IsIntSize, pb_enc_varint-Emits, pb_enc_uvarint-Emits, pb_enc_svarint-Emits,
}
use app_card.Nanopb.Decoders.{
  Input, pb_decode_svarint, pb_dec_varint, pb_dec_uvarint, pb_dec_svarint,
}
use app_card.Nanopb.Decoders.Stores.{
  pb_decode_svarint-varint, pb_dec_varint-Stores, pb_dec_uvarint-Stores, pb_dec_svarint-Stores,
}

-- A buffer stream that has room for `bs`.
pub record HasRoom (bs : List ℕ) (o : OStream) : Type 0 where
  pub callback : o.callback ≡ buf_write_callback
  pub room : o.bytes_written + length bs ≤ o.max_size
  pub size : o.max_size < 2 ^ 64

-- A buffer stream at `bs`, with `rest` behind it.
pub record StandsAt (bs rest : List ℕ) (s : IStream) : Type 0 where
  pub callback : s.callback ≡ buf_read_callback
  pub state : s.state ≡ bs ++ rest
  pub left : length bs ≤ s.bytes_left

-- Every 64-bit number: `pb_encode_varint` stores its varint in a buffer with room for that, and
-- `pb_decode_varint` takes just the varint off a buffer that begins with it and gives the number.
pub pb_decode_varint-pb_encode_varint :
    (v : ℕ) (o : OStream) (s : IStream) (rest : List ℕ)
    → v < 2 ^ 64
    → HasRoom (varint v) o
    → StandsAt (varint v) rest s
    → (pb_encode_varint v o ≡ ok tt (stored (varint v) o))
      × (pb_decode_varint s ≡ ok v (after (varint v) rest s))
pb_decode_varint-pb_encode_varint v o s rest h r a = (
  (pb_encode_varint-Emits v h).writes o r.callback r.room r.size tt,
  pb_decode_varint-varint v h s rest a.callback a.state a.left,
)

-- Every number of 32 bits: `pb_encode_varint` stores its varint in a buffer with room for that, and
-- `pb_decode_varint32` takes just the varint off a buffer that begins with it and gives the number.
pub pb_decode_varint32-pb_encode_varint :
    (v : ℕ) (o : OStream) (s : IStream) (rest : List ℕ)
    → v < 2 ^ 32
    → HasRoom (varint v) o
    → StandsAt (varint v) rest s
    → (pb_encode_varint v o ≡ ok tt (stored (varint v) o))
      × (pb_decode_varint32 s ≡ ok v (after (varint v) rest s))
pb_decode_varint32-pb_encode_varint v o s rest h r a = (
  (pb_encode_varint-Emits v (omega arith)).writes o r.callback r.room r.size tt,
  pb_decode_varint32-varint v h s rest a.callback a.state a.left,
)

-- Every bit pattern of an int64_t: `pb_encode_svarint` stores the varint of its zigzag number in
-- a buffer with room for that, and `pb_decode_svarint` takes just that off a buffer that begins
-- with it and gives the pattern.
pub pb_decode_svarint-pb_encode_svarint :
    (v : ℕ) (o : OStream) (s : IStream) (rest : List ℕ)
    → v < 2 ^ 64
    → HasRoom (varint (zigzag v)) o
    → StandsAt (varint (zigzag v)) rest s
    → (pb_encode_svarint v o ≡ ok tt (stored (varint (zigzag v)) o))
      × (pb_decode_svarint s ≡ ok v (after (varint (zigzag v)) rest s))
pb_decode_svarint-pb_encode_svarint v o s rest h r a = (
  (pb_encode_svarint-Emits v h).writes o r.callback r.room r.size tt,
  pb_decode_svarint-varint v h s rest a.callback a.state a.left,
)

-- Every wire type and every field number from 1 to 2 ^ 29 - 1: `pb_encode_tag` stores the varint
-- of both in a buffer with room for that, and `pb_decode_tag` takes just that off a buffer that
-- begins with it and gives both, so that no field is taken for the end of the message.
pub pb_decode_tag-pb_encode_tag :
    (wiretype field_number : ℕ) (o : OStream) (s : IStream) (rest : List ℕ)
    → wiretype < 8
    → 0 < field_number
    → field_number < 2 ^ 29
    → HasRoom (varint (tag_number wiretype field_number)) o
    → StandsAt (varint (tag_number wiretype field_number)) rest s
    → (pb_encode_tag wiretype field_number o
        ≡ ok tt (stored (varint (tag_number wiretype field_number)) o))
      × (pb_decode_tag s
          ≡ ok
              (record { wire_type = wiretype; tag = field_number })
              (after (varint (tag_number wiretype field_number)) rest s))
pb_decode_tag-pb_encode_tag wiretype field_number o s rest hw pos hf r a = (
  (pb_encode_tag-Emits wiretype field_number hw (omega arith)).writes o r.callback r.room r.size tt,
  pb_decode_tag-varint wiretype field_number hw pos hf s rest a.callback a.state a.left,
)

-- Bytes, less than 2 ^ 32 of them: `pb_encode_string` stores the varint of their number and then
-- the bytes in a buffer with room for both, and `pb_skip_string` takes just both off a buffer
-- that begins with them.
pub pb_skip_string-pb_encode_string :
    (bs : List ℕ) (o : OStream) (s : IStream) (rest : List ℕ)
    → length bs < 2 ^ 32
    → HasRoom (varint (length bs) ++ bs) o
    → StandsAt (varint (length bs) ++ bs) rest s
    → (pb_encode_string bs (length bs) o ≡ ok tt (stored (varint (length bs) ++ bs) o))
      × (pb_skip_string s ≡ ok tt (after (varint (length bs) ++ bs) rest s))
pb_skip_string-pb_encode_string bs o s rest h r a = (
  (pb_encode_string-Emits bs (omega arith)).writes o r.callback r.room r.size tt,
  pb_skip_string-Reads bs h s rest a.callback a.state a.left,
)

-- An unsigned integer field of 1, 2, 4 or 8 bytes, in a memory of bytes: `pb_enc_uvarint` stores
-- the varint of the value at `src` in a buffer with room for that, and `pb_dec_uvarint` takes just
-- that off a buffer that begins with it and stores the value at `dest`, and nothing else.
pub pb_dec_uvarint-pb_enc_uvarint :
    (field : PbField) (m : Memory) (src dest : ℕ) (o : OStream) (s : Input) (rest : List ℕ)
    → IsIntSize field.data_size
    → IsBytes m
    → HasRoom (varint (load field.data_size m src)) o
    → StandsAt (varint (load field.data_size m src)) rest s.stream
    → (pb_enc_uvarint field m src o ≡ ok tt (stored (varint (load field.data_size m src)) o))
      × (pb_dec_uvarint field dest s
          ≡ ok tt (record {
            stream = after (varint (load field.data_size m src)) rest s.stream;
            memory = store field.data_size (load field.data_size m src) s.memory dest;
          }))
pb_dec_uvarint-pb_enc_uvarint field m src dest o s rest size bytes r a = (
  (pb_enc_uvarint-Emits field m src size bytes).writes o r.callback r.room r.size tt,
  pb_dec_uvarint-Stores field dest (load field.data_size m src) size
      (load-lt field.data_size m src bytes) s rest a.callback a.state a.left,
)

-- A signed integer or enum field of 1, 2, 4 or 8 bytes, in a memory of bytes: `pb_enc_varint`
-- stores the varint of the value at `src`, widened to 64 bits, in a buffer with room for that, and
-- `pb_dec_varint` takes just that off a buffer that begins with it and stores the value at `dest`,
-- and nothing else.
pub pb_dec_varint-pb_enc_varint :
    (field : PbField) (m : Memory) (src dest : ℕ) (o : OStream) (s : Input) (rest : List ℕ)
    → IsIntSize field.data_size
    → IsBytes m
    → HasRoom (varint (sign_extend field.data_size (load field.data_size m src))) o
    → StandsAt (varint (sign_extend field.data_size (load field.data_size m src))) rest s.stream
    → (pb_enc_varint field m src o
        ≡ ok tt (stored (varint (sign_extend field.data_size (load field.data_size m src))) o))
      × (pb_dec_varint field dest s
          ≡ ok tt (record {
            stream =
                after
                  (varint (sign_extend field.data_size (load field.data_size m src)))
                  rest
                  s.stream;
            memory = store field.data_size (load field.data_size m src) s.memory dest;
          }))
pb_dec_varint-pb_enc_varint field m src dest o s rest size bytes r a = (
  (pb_enc_varint-Emits field m src size bytes).writes o r.callback r.room r.size tt,
  pb_dec_varint-Stores field dest (load field.data_size m src) size
      (load-lt field.data_size m src bytes) s rest a.callback a.state a.left,
)

-- A zigzag integer field of 1, 2, 4 or 8 bytes, in a memory of bytes: `pb_enc_svarint` stores the
-- varint of the zigzag number of the value at `src`, widened to 64 bits, in a buffer with room for
-- that, and `pb_dec_svarint` takes just that off a buffer that begins with it and stores the value
-- at `dest`, and nothing else.
pub pb_dec_svarint-pb_enc_svarint :
    (field : PbField) (m : Memory) (src dest : ℕ) (o : OStream) (s : Input) (rest : List ℕ)
    → IsIntSize field.data_size
    → IsBytes m
    → HasRoom (varint (zigzag (sign_extend field.data_size (load field.data_size m src)))) o
    → StandsAt
        (varint (zigzag (sign_extend field.data_size (load field.data_size m src))))
        rest
        s.stream
    → (pb_enc_svarint field m src o
        ≡ ok tt
            (stored (varint (zigzag (sign_extend field.data_size (load field.data_size m src)))) o))
      × (pb_dec_svarint field dest s
          ≡ ok tt (record {
            stream =
                after
                  (varint (zigzag (sign_extend field.data_size (load field.data_size m src))))
                  rest
                  s.stream;
            memory = store field.data_size (load field.data_size m src) s.memory dest;
          }))
pb_dec_svarint-pb_enc_svarint field m src dest o s rest size bytes r a = (
  (pb_enc_svarint-Emits field m src size bytes).writes o r.callback r.room r.size tt,
  pb_dec_svarint-Stores field dest (load field.data_size m src) size
      (load-lt field.data_size m src bytes) s rest a.callback a.state a.left,
)
