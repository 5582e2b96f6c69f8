-- ===== src/Tests/Halts.antt =====
-- The decoding of messages on any bytes, at concrete inputs.
use app_card.Base.{refl, inl, inr, List, [], ◌∷◌, none, arith}
use app_card.Nanopb.Pb.{PbField}
use app_card.Nanopb.IStream.{buf_read_callback}
use app_card.Nanopb.IStream.Leaves.{IsInput}
use app_card.Nanopb.Decoders.{Input}
use app_card.Nanopb.Decoders.Halts.{Halts, Any}
use app_card.Nanopb.DecodeExtension.Decodable.{IsPlain, Decodable, IsDecodable}
use app_card.Nanopb.MessageDecoder.{pb_decode, pb_decode_delimited}
use app_card.Nanopb.MessageDecoder.Total.{pb_decode-Halts, pb_decode_delimited-Halts}
use app_card.Tests.Decode.{rt, number_field, last_field, number-IsTable}
use app_card.Tests.Message.{sub_table}

number-IsPlain : IsPlain number_field
number-IsPlain = record {
  no_callback = refl;
  no_extension = refl;
  known = refl;
  items = λ packable. record {
    packable = refl;
    byte = omega arith;
    fixed32 = λ e. omega arith;
    fixed64 = λ e. absurd (omega (arith, e));
  };
}

sub_table-IsDecodable : IsDecodable rt 1 sub_table
unfolding Decodable
sub_table-IsDecodable = (
  record {
    fields = number_field ∷ [];
    end = last_field;
    whole = refl;
    is_table = number-IsTable;
    each = ((number-IsPlain, inl refl), tt);
  },
  omega arith,
)

-- A submessage with the table at 8, and an allocated array of numbers.
abbrev part_field : PbField
part_field = record number_field { tag = 2; type = 0x08; ptr = 8 }

abbrev numbers_field : PbField
numbers_field = record number_field { tag = 3; type = 0xa2 }

abbrev order_table : List PbField
order_table = number_field ∷ part_field ∷ numbers_field ∷ last_field ∷ []

part-IsPlain : IsPlain part_field
part-IsPlain = record {
  no_callback = refl;
  no_extension = refl;
  known = refl;
  items = λ packable. absurd (ground (arith, packable));
}

numbers-IsPlain : IsPlain numbers_field
numbers-IsPlain = record {
  no_callback = refl;
  no_extension = refl;
  known = refl;
  items = λ packable. record {
    packable = refl;
    byte = omega arith;
    fixed32 = λ e. omega arith;
    fixed64 = λ e. absurd (omega (arith, e));
  };
}

order-IsDecodable : IsDecodable rt 2 order_table
unfolding Decodable
order-IsDecodable = (
  record {
    fields = number_field ∷ part_field ∷ numbers_field ∷ [];
    end = last_field;
    whole = refl;
    is_table = record { tags = (ground arith, (ground arith, (ground arith, tt))); last = refl };
    each = (
      (number-IsPlain, inl refl),
      ((part-IsPlain, inr sub_table-IsDecodable), ((numbers-IsPlain, inl refl), tt)),
    );
  },
  omega arith,
)

-- A number, the start of a submessage that promises more than there is, and bytes of an array.
abbrev broken : Input
broken = record {
  stream = record {
    callback = buf_read_callback;
    state = 8 ∷ 150 ∷ 1 ∷ 26 ∷ 2 ∷ 1 ∷ 2 ∷ 18 ∷ 200 ∷ 8 ∷ [];
    bytes_left = 10;
    errmsg = none;
  };
  memory = λ a. 255;
}

broken-IsInput : IsInput (broken.stream)
broken-IsInput = record {
  readable = record { callback = refl; holds = omega arith };
  bytes = ground arith;
}

pb_decode-Halts_example : Halts Any (broken.stream) (pb_decode rt 2 0 order_table 64 broken)
pb_decode-Halts_example =
    pb_decode-Halts rt 2 0 order_table 64 broken order-IsDecodable broken-IsInput

pb_decode_delimited-Halts_example :
    Halts Any (broken.stream) (pb_decode_delimited rt 2 0 order_table 64 broken)
pb_decode_delimited-Halts_example =
    pb_decode_delimited-Halts rt 2 0 order_table 64 broken order-IsDecodable broken-IsInput
