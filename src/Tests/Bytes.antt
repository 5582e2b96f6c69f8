-- ===== src/Tests/Bytes.antt =====
-- Runs of the encoders and decoders of bytes, strings and numbers of a fixed width.
use app_card.Base.{ℕ, ◌≡◌, refl, List, [], ◌∷◌, ok, arith}
use app_card.Nanopb.Memory.{Memory, load, load_bytes, le_bytes, store, store_bytes, set_byte}
use app_card.Nanopb.OStream.Contract.{stored}
use app_card.Nanopb.OStream.Varint.{varint, varint_of}
use app_card.Nanopb.IStream.Contract.{after}
use app_card.Nanopb.Encoders.{pb_enc_bytes, pb_enc_string, string_size}
use app_card.Nanopb.Decoders.{pb_dec_bytes, pb_dec_string}
use app_card.Nanopb.RoundTrip.Bytes.{wire, pb_dec_bytes-pb_enc_bytes, pb_dec_string-pb_enc_string}
use app_card.Nanopb.Encoders.{pb_enc_fixed32, pb_enc_fixed64}
use app_card.Nanopb.Decoders.{pb_dec_fixed32, pb_dec_fixed64}
use app_card.Nanopb.RoundTrip.Fixed.{pb_dec_fixed32-pb_enc_fixed32, pb_dec_fixed64-pb_enc_fixed64}
use app_card.Tests.{
  memory-IsBytes, out, source, behind, field8, memory, input, no_realloc, out-HasRoom,
  source-StandsAt,
}

-- The number 3, three characters, and a '\0', from address 4 on.
abbrev held : Memory
held = store_bytes (3 ∷ 0 ∷ 0 ∷ 0 ∷ 97 ∷ 98 ∷ 99 ∷ 0 ∷ []) memory 4

abbrev bytes_wire : List ℕ
bytes_wire = wire (load 4 held 4) held 8

pb_dec_bytes-pb_enc_bytes_example :
    (pb_enc_bytes field8 held 4 out ≡ ok tt (stored bytes_wire out))
    × (pb_dec_bytes no_realloc field8 16 (input bytes_wire)
        ≡ ok tt (record {
          stream = after bytes_wire behind (source bytes_wire);
          memory =
              store_bytes
                (load_bytes (load 4 held 4) held 8)
                (store 4 (load 4 held 4) memory 16)
                20;
        }))
pb_dec_bytes-pb_enc_bytes_example =
    pb_dec_bytes-pb_enc_bytes field8 held 4 16 out (input bytes_wire) behind no_realloc
      (omega arith) (unfold load store_bytes in omega arith)
      (unfold load store_bytes in omega arith) refl
      (out-HasRoom bytes_wire (unfold varint varint_of load load_bytes store_bytes in omega arith))
      (source-StandsAt bytes_wire)

abbrev string_wire : List ℕ
string_wire = wire 3 held 8

pb_dec_string-pb_enc_string_example :
    (pb_enc_string field8 held 8 out ≡ ok tt (stored string_wire out))
    × (pb_dec_string no_realloc field8 16 (input string_wire)
        ≡ ok tt (record {
          stream = after string_wire behind (source string_wire);
          memory = set_byte (store_bytes (load_bytes 3 held 8) memory 16) 19 0;
        }))
pb_dec_string-pb_enc_string_example =
    pb_dec_string-pb_enc_string field8 held 8 16 out (input string_wire) behind no_realloc 3
      (omega arith) (unfold string_size store_bytes in refl) (omega arith) (omega arith) refl
      (out-HasRoom string_wire (unfold varint varint_of load_bytes store_bytes in omega arith))
      (source-StandsAt string_wire)

-- The four bytes of the memory from address 4 on, and the eight.
abbrev word : List ℕ
word = le_bytes 4 (load 4 memory 4)

pb_dec_fixed32-pb_enc_fixed32_example :
    (pb_enc_fixed32 field8 memory 4 out ≡ ok tt (stored word out))
    × (pb_dec_fixed32 field8 16 (input word)
        ≡ ok tt (record {
          stream = after word behind (source word);
          memory = store 4 (load 4 memory 4) memory 16;
        }))
pb_dec_fixed32-pb_enc_fixed32_example =
    pb_dec_fixed32-pb_enc_fixed32 field8 memory 4 16 out (input word) behind memory-IsBytes
      (out-HasRoom word (unfold le_bytes in omega arith)) (source-StandsAt word)

abbrev long_word : List ℕ
long_word = le_bytes 8 (load 8 memory 4)

pb_dec_fixed64-pb_enc_fixed64_example :
    (pb_enc_fixed64 field8 memory 4 out ≡ ok tt (stored long_word out))
    × (pb_dec_fixed64 field8 16 (input long_word)
        ≡ ok tt (record {
          stream = after long_word behind (source long_word);
          memory = store 8 (load 8 memory 4) memory 16;
        }))
pb_dec_fixed64-pb_enc_fixed64_example =
    pb_dec_fixed64-pb_enc_fixed64 field8 memory 4 16 out (input long_word) behind memory-IsBytes
      (out-HasRoom long_word (unfold le_bytes in omega arith)) (source-StandsAt long_word)
