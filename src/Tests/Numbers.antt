-- ===== src/Tests/Numbers.antt =====
-- A message of two numbers, encoded and decoded.
use app_card.Base.{ℕ, ◌≡◌, ◌++◌, refl, inl, inr, List, [], ◌∷◌, some, none, ok, arith}
use app_card.Nanopb.Pb.{PbField}
use app_card.Nanopb.Memory.{load, store_bytes, sign_extend}
use app_card.Nanopb.OStream.{wire_type_of}
use app_card.Nanopb.OStream.Contract.{stored}
use app_card.Nanopb.OStream.Varint.{varint, varint_of}
use app_card.Nanopb.IStream.{buf_read_callback}
use app_card.Nanopb.FieldIter.{advanced}
use app_card.Nanopb.Decoders.{Input}
use app_card.Nanopb.MessageEncoder.{pb_encode, pb_encode_delimited}
use app_card.Nanopb.MessageEncoder.Wire.{message_bytes, tag_bytes}
use app_card.Nanopb.MessageDecoder.{pb_decode, pb_decode_delimited}
use app_card.Nanopb.RoundTrip.Scalar.{unsigned_type, signed_type}
use app_card.Nanopb.RoundTrip.Start.{IsNumbers}
use app_card.Nanopb.RoundTrip.Message.{Copied, pb_decode-pb_encode}
use app_card.Nanopb.RoundTrip.Delimited.{pb_decode_delimited-pb_encode_delimited}
use app_card.Nanopb.RoundTrip.Missing.{Misses, pb_decode-Misses}
use app_card.Tests.{out, out-HasRoom}
use app_card.Tests.Message.{env, no_user, structure, structure-IsBytes}
use app_card.Tests.Decode.{rt, number_field, last_field}

abbrev signed_field : PbField
signed_field = record number_field { tag = 2; type = 0x01 }

abbrev two_fields : List PbField
two_fields = number_field ∷ signed_field ∷ last_field ∷ []

-- 150 in field 1 and 1 in field 2.
abbrev on_wire : List ℕ
on_wire = 8 ∷ 150 ∷ 1 ∷ 16 ∷ 1 ∷ []

two_fields-format : message_bytes env structure no_user 1 0 two_fields 64 ≡ some on_wire
unfolding message_bytes tag_bytes wire_type_of store_bytes advanced varint varint_of load
    sign_extend
two_fields-format = refl

two_fields-IsNumbers : IsNumbers number_field (signed_field ∷ []) last_field
two_fields-IsNumbers = record {
  numbers = (
    record {
      static = refl;
      required = refl;
      tag_small = omega arith;
      number = unsigned_type refl (inr (inr (inl refl)));
    },
    (
      record {
        static = refl;
        required = refl;
        tag_small = omega arith;
        number = signed_type refl (inr (inr (inl refl)));
      },
      tt,
    ),
  );
  is_table = record { tags = (ground arith, (ground arith, tt)); last = refl };
  differ = (ground arith, tt);
  few = omega arith;
}

-- The message in a buffer, with a byte behind, and a memory to decode it to.
abbrev received : Input
received = record {
  stream = record {
    callback = buf_read_callback;
    state = 8 ∷ 150 ∷ 1 ∷ 16 ∷ 1 ∷ 99 ∷ [];
    bytes_left = 5;
    errmsg = none;
  };
  memory = λ a. 255;
}

pb_decode-pb_encode_example :
    (pb_encode env structure 1 0 two_fields 64 out ≡ ok tt (stored on_wire out))
    × Copied structure
        (number_field ∷ signed_field ∷ [])
        64
        128
        (99 ∷ [])
        0
        received
        (pb_decode rt 1 0 two_fields 128 received)
pb_decode-pb_encode_example =
    pb_decode-pb_encode rt env structure no_user number_field (signed_field ∷ []) last_field 0 0 64
      128 on_wire (99 ∷ []) out received structure-IsBytes two_fields-IsNumbers (omega arith)
      (omega arith) (omega arith) two_fields-format (out-HasRoom on_wire (omega arith))
      (record { errmsg = refl; size = omega arith })
      (record { callback = refl; state = refl; bytes_left = refl })

-- The message with its length in front, and more behind.
abbrev received_delimited : Input
received_delimited = record received {
  stream = record {
    callback = buf_read_callback;
    state = 5 ∷ 8 ∷ 150 ∷ 1 ∷ 16 ∷ 1 ∷ 99 ∷ [];
    bytes_left = 7;
    errmsg = none;
  };
}

pb_decode_delimited-pb_encode_delimited_example :
    (pb_encode_delimited env structure 1 0 two_fields 64 out
      ≡ ok tt (stored (varint 5 ++ on_wire) out))
    × Copied structure
        (number_field ∷ signed_field ∷ [])
        64
        128
        (99 ∷ [])
        1
        received_delimited
        (pb_decode_delimited rt 1 0 two_fields 128 received_delimited)
unfolding varint varint_of
pb_decode_delimited-pb_encode_delimited_example =
    pb_decode_delimited-pb_encode_delimited rt env structure no_user number_field
      (signed_field ∷ []) last_field 0 0 64 128 on_wire (99 ∷ []) out received_delimited
      structure-IsBytes two_fields-IsNumbers (omega arith) (omega arith) (omega arith)
      two_fields-format (out-HasRoom (varint 5 ++ on_wire) (omega arith))
      (record { errmsg = refl; size = omega arith })
      (record { short = omega arith; callback = refl; state = refl; holds = omega arith })

-- The first number only, for the table of both.
abbrev first_only : Input
first_only = record received {
  stream = record {
    callback = buf_read_callback;
    state = 8 ∷ 150 ∷ 1 ∷ 99 ∷ [];
    bytes_left = 3;
    errmsg = none;
  };
}

first-format :
    message_bytes env structure no_user 1 0 (number_field ∷ last_field ∷ []) 64
    ≡ some (8 ∷ 150 ∷ 1 ∷ [])
unfolding message_bytes tag_bytes wire_type_of store_bytes varint varint_of load
first-format = refl

pb_decode-Misses_example : Misses (99 ∷ []) first_only (pb_decode rt 1 0 two_fields 128 first_only)
pb_decode-Misses_example =
    pb_decode-Misses rt env structure no_user number_field [] signed_field [] last_field 0 0 64 128
      (8 ∷ 150 ∷ 1 ∷ []) (99 ∷ []) first_only structure-IsBytes two_fields-IsNumbers (omega arith)
      (omega arith) (omega arith) first-format
      (record { callback = refl; state = refl; bytes_left = refl })
