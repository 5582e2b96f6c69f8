-- ===== src/Tests.antt =====
-- Runs of the definitions, and the theorems at concrete inputs: data, and the values on a stream.
pub mod Streams
pub mod Fields
pub mod Bytes
pub mod Message
pub mod Decode
pub mod Defaults
pub mod Halts
pub mod Numbers
use app_card.Base.{
  ℕ, ◌+◌, ◌-◌, ◌^◌, ◌≤◌, ◌≡◌, ◌≢◌, ◌⊎◌, zero, suc, refl, ok, failed, List, [], ◌∷◌, ◌++◌, length,
  some, none, true, arith, inr, inl, if◌then◌else◌, ◌==◌, All, append_assoc, length-append,
}
use app_card.Nanopb.Pb.{PbField, stream_full}
use app_card.Nanopb.Memory.{set_byte, store_bytes, Memory, load, store, sign_extend, load_bytes}
use app_card.Nanopb.OStream.{
  OStream, buf_write_callback, pb_write, pb_encode_varint, pb_encode_svarint, pb_encode_tag,
  pb_encode_string, pb_ostream_sizing, pb_ostream_from_buffer,
}
use app_card.Nanopb.OStream.Contract.{IsFull, stored, measured}
use app_card.Nanopb.OStream.Varint.{varint, varint_of, zigzag, tag_number}
use app_card.Nanopb.OStream.Bounds.{
  pb_write-bounds, pb_encode_string-IsFull, pb_encode_string-sizing,
}
use app_card.Nanopb.IStream.{
  IStream, buf_read_callback, pb_decode_varint, pb_decode_varint32, pb_decode_varint32_eof,
  pb_readbyte, pb_read, read_checked, varint_loop, varint32_loop, varint32_step, pb_decode_tag,
  pb_skip_string, pb_skip_field,
}
use app_card.Nanopb.IStream.Contract.{after}
use app_card.Nanopb.IStream.Safety.{Follows, Settled, IsReadable}
use app_card.Nanopb.IStream.Settles.{pb_decode_tag-Settles, pb_skip_field-Settles}
use app_card.Nanopb.Substream.{pb_make_string_substream, pb_close_string_substream}
use app_card.Nanopb.Substream.Resync.{substream, parent, substream_resync}
use app_card.Nanopb.Encoders.{pb_enc_varint, pb_enc_uvarint, pb_enc_svarint}
use app_card.Nanopb.Encoders.Emit.{IsBytes, IsIntSize}
use app_card.Nanopb.Decoders.{
  Input, pb_decode_svarint, pb_dec_varint, pb_dec_uvarint, pb_dec_svarint,
}
use app_card.Nanopb.Decoders.{pb_dec_bytes, pb_dec_string, pb_dec_fixed_length_bytes}
use app_card.Nanopb.Decoders.Confined.{Confined}
use app_card.Nanopb.Decoders.Within.{pb_dec_bytes-Confined, pb_dec_string-Confined}
use app_card.Nanopb.RoundTrip.{
  HasRoom, StandsAt, pb_decode_varint-pb_encode_varint, pb_decode_varint32-pb_encode_varint,
  pb_decode_svarint-pb_encode_svarint, pb_decode_tag-pb_encode_tag, pb_skip_string-pb_encode_string,
  pb_dec_uvarint-pb_enc_uvarint, pb_dec_varint-pb_enc_varint, pb_dec_svarint-pb_enc_svarint,
}
use app_card.Nanopb.FieldIter.{
  FieldIter, pb_field_iter_find, pb_field_iter_next, pb_field_iter_begin, find_loop, wanted,
}
use app_card.Nanopb.FieldIter.Step.{IsTable}
use app_card.Nanopb.FieldIter.Walk.{Found}
use app_card.Nanopb.FieldIter.Find.{Missed, pb_field_iter_find-cases}
use app_card.Base64.{digit, f_b64_ntop, f_b64_pton}
use app_card.Base64.Encode.{IsByte, encoding, f_b64_ntop-encoding}
use app_card.Base64.RoundTrip.{f_b64_pton-encoding}

-- A buffer of 32 bytes to write to, and a buffer that holds `bs` and a byte more.
abbrev pub out : OStream
out = record {
  callback = buf_write_callback;
  state = [];
  max_size = 32;
  bytes_written = 0;
  errmsg = none;
}

abbrev pub behind : List ℕ
behind = 8 ∷ []

abbrev pub source : List ℕ → IStream
source bs = record {
  callback = buf_read_callback;
  state = bs ++ behind;
  bytes_left = length bs + 1;
  errmsg = none;
}

pub source-StandsAt : (bs : List ℕ) → StandsAt bs behind (source bs)
source-StandsAt bs = record { callback = refl; state = refl; left = omega arith }

pub source-IsReadable : (bs : List ℕ) → IsReadable (source bs)
source-IsReadable bs = record { callback = refl; holds = omega (arith, length-append bs behind) }

pub out-HasRoom : (bs : List ℕ) → length bs ≤ 32 → HasRoom bs out
out-HasRoom bs h = record { callback = refl; room = omega arith; size = omega arith }

-- 300 as a varint.
varint_300 :
    pb_decode_varint (source (172 ∷ 2 ∷ []))
    ≡ ok 300 (after (172 ∷ 2 ∷ []) behind (source (172 ∷ 2 ∷ [])))
unfolding pb_decode_varint varint_loop pb_readbyte
varint_300 = refl

-- `bitpos` of `pb_decode_varint32_eof` wraps to 3 at the 37th byte that is marked, so that this
-- field of 38 bytes is a number and not a "varint overflow".
abbrev padding : ℕ → List ℕ
padding zero = 1 ∷ []
padding (suc n) = 128 ∷ padding n

overlong_varint :
    pb_decode_varint32 (source (padding 37))
    ≡ ok 8 (after (padding 37) behind (source (padding 37)))
unfolding pb_decode_varint32 pb_decode_varint32_eof pb_readbyte varint32_loop varint32_step
overlong_varint = refl

pb_decode_varint-pb_encode_varint_example :
    (pb_encode_varint 300 out ≡ ok tt (stored (varint 300) out))
    × (pb_decode_varint (source (varint 300))
        ≡ ok 300 (after (varint 300) behind (source (varint 300))))
pb_decode_varint-pb_encode_varint_example =
    pb_decode_varint-pb_encode_varint 300 out (source (varint 300)) behind (omega arith)
      (out-HasRoom (varint 300) (unfold varint varint_of in omega arith))
      (source-StandsAt (varint 300))

pb_decode_varint32-pb_encode_varint_example :
    (pb_encode_varint 300 out ≡ ok tt (stored (varint 300) out))
    × (pb_decode_varint32 (source (varint 300))
        ≡ ok 300 (after (varint 300) behind (source (varint 300))))
pb_decode_varint32-pb_encode_varint_example =
    pb_decode_varint32-pb_encode_varint 300 out (source (varint 300)) behind (omega arith)
      (out-HasRoom (varint 300) (unfold varint varint_of in omega arith))
      (source-StandsAt (varint 300))

pb_decode_svarint-pb_encode_svarint_example :
    (pb_encode_svarint (2 ^ 64 - 200) out ≡ ok tt (stored (varint (zigzag (2 ^ 64 - 200))) out))
    × (pb_decode_svarint (source (varint (zigzag (2 ^ 64 - 200))))
        ≡ ok (2 ^ 64 - 200) (
            after
              (varint (zigzag (2 ^ 64 - 200)))
              behind
              (source (varint (zigzag (2 ^ 64 - 200))))))
pb_decode_svarint-pb_encode_svarint_example =
    pb_decode_svarint-pb_encode_svarint (2 ^ 64 - 200) out (source (varint (zigzag (2 ^ 64 - 200))))
      behind (omega arith)
      (out-HasRoom (varint (zigzag (2 ^ 64 - 200))) (unfold varint varint_of zigzag in omega arith))
      (source-StandsAt (varint (zigzag (2 ^ 64 - 200))))

pb_decode_tag-pb_encode_tag_example :
    (pb_encode_tag 2 1000 out ≡ ok tt (stored (varint (tag_number 2 1000)) out))
    × (pb_decode_tag (source (varint (tag_number 2 1000)))
        ≡ ok
            (record { wire_type = 2; tag = 1000 })
            (after (varint (tag_number 2 1000)) behind (source (varint (tag_number 2 1000)))))
pb_decode_tag-pb_encode_tag_example =
    pb_decode_tag-pb_encode_tag 2 1000 out (source (varint (tag_number 2 1000))) behind
      (omega arith) (omega arith) (omega arith)
      (out-HasRoom (varint (tag_number 2 1000)) (unfold varint varint_of in omega arith))
      (source-StandsAt (varint (tag_number 2 1000)))

abbrev pub abc : List ℕ
abc = 97 ∷ 98 ∷ 99 ∷ []

pub abc-IsByte : All IsByte abc
abc-IsByte = (omega arith, (omega arith, (omega arith, tt)))

pb_skip_string-pb_encode_string_example :
    (pb_encode_string abc 3 out ≡ ok tt (stored (varint 3 ++ abc) out))
    × (pb_skip_string (source (varint 3 ++ abc))
        ≡ ok tt (after (varint 3 ++ abc) behind (source (varint 3 ++ abc))))
pb_skip_string-pb_encode_string_example =
    pb_skip_string-pb_encode_string abc out (source (varint 3 ++ abc)) behind (omega arith)
      (out-HasRoom (varint 3 ++ abc) (unfold varint varint_of in omega arith))
      (source-StandsAt (varint 3 ++ abc))

-- A memory with the bytes 0x2c, 0x81 and 0xff repeated, and a field of four bytes.
abbrev pub memory : Memory
memory a = if a == 4 then 0x2c else if a == 5 then 0x81 else 0xff

pub memory-IsBytes : IsBytes memory
memory-IsBytes a = ground arith

abbrev pub field : PbField
field = record {
  tag = 1;
  type = 0x01;
  data_offset = 0;
  size_offset = 0;
  data_size = 4;
  array_size = 0;
  ptr = 0;
}

field-IsIntSize : IsIntSize 4
field-IsIntSize = inr (inr (inl refl))

abbrev pub input : List ℕ → Input
input bs = record { stream = source bs; memory = memory }

abbrev unsigned : List ℕ
unsigned = varint (load 4 memory 4)

pb_dec_uvarint-pb_enc_uvarint_example :
    (pb_enc_uvarint field memory 4 out ≡ ok tt (stored unsigned out))
    × (pb_dec_uvarint field 16 (input unsigned)
        ≡ ok tt (record {
          stream = after unsigned behind (source unsigned);
          memory = store 4 (load 4 memory 4) memory 16;
        }))
pb_dec_uvarint-pb_enc_uvarint_example =
    pb_dec_uvarint-pb_enc_uvarint field memory 4 16 out (input unsigned) behind field-IsIntSize
      memory-IsBytes (out-HasRoom unsigned (unfold varint varint_of load in omega arith))
      (source-StandsAt unsigned)

abbrev signed : List ℕ
signed = varint (sign_extend 4 (load 4 memory 4))

pb_dec_varint-pb_enc_varint_example :
    (pb_enc_varint field memory 4 out ≡ ok tt (stored signed out))
    × (pb_dec_varint field 16 (input signed)
        ≡ ok tt (record {
          stream = after signed behind (source signed);
          memory = store 4 (load 4 memory 4) memory 16;
        }))
pb_dec_varint-pb_enc_varint_example =
    pb_dec_varint-pb_enc_varint field memory 4 16 out (input signed) behind field-IsIntSize
      memory-IsBytes (out-HasRoom signed (unfold varint varint_of load sign_extend in omega arith))
      (source-StandsAt signed)

abbrev zigzagged : List ℕ
zigzagged = varint (zigzag (sign_extend 4 (load 4 memory 4)))

pb_dec_svarint-pb_enc_svarint_example :
    (pb_enc_svarint field memory 4 out ≡ ok tt (stored zigzagged out))
    × (pb_dec_svarint field 16 (input zigzagged)
        ≡ ok tt (record {
          stream = after zigzagged behind (source zigzagged);
          memory = store 4 (load 4 memory 4) memory 16;
        }))
pb_dec_svarint-pb_enc_svarint_example =
    pb_dec_svarint-pb_enc_svarint field memory 4 16 out (input zigzagged) behind field-IsIntSize
      memory-IsBytes
      (out-HasRoom zigzagged (unfold varint varint_of load sign_extend zigzag in omega arith))
      (source-StandsAt zigzagged)

-- A field of 8 bytes, and memory that does not grow.
abbrev pub field8 : PbField
field8 = record field { data_size = 8 }

abbrev pub no_realloc : ℕ → ℕ → Memory → ℕ × Memory
no_realloc ptr size m = (0, m)
