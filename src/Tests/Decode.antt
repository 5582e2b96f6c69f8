-- ===== src/Tests/Decode.antt =====
-- What `pb_decode` makes of the message that `pb_encode` writes.
use app_card.Base.{
  ◌++◌, ℕ, ◌==◌, ◌≡◌, refl, none, List, [], ◌∷◌, ok, failed, fault, ◌<◌, ◌-◌, ◌^◌, inl, arith,
  if◌then◌else◌, Run, length,
}
use app_card.Nanopb.Memory.{load_bytes, load, store, store_bytes, le_bytes, clear}
use app_card.Nanopb.IStream.{
  IStream, buf_read_callback, pb_istream_from_buffer, pb_decode_varint32_eof, pb_readbyte,
  pb_decode_varint, varint_loop,
}
use app_card.Nanopb.Decoders.{Input}
use app_card.Nanopb.Runtime.{Runtime}
use mathlib.Core.List.{Mem}
use app_card.Nanopb.Pb.{PbField, missing_required_field}
use app_card.Nanopb.IStream.{pb_decode_tag}
use app_card.Nanopb.FieldIter.{
  FieldIter, wanted, pb_field_iter_begin, pb_field_iter_next, pb_field_iter_find,
}
use app_card.Nanopb.DecodeField.{decode_item, decode_static_field, pb_decoders}
use app_card.Nanopb.DecodeField.Arrays.{Keeps}
use app_card.Nanopb.DecodeField.Arrays.Unpacked.{Adds, decode_item-Adds}
use app_card.Nanopb.DecodeField.Items.{pb_dec_fixed32-DecodesItem}
use app_card.Nanopb.OStream.Varint.{varint, varint_of, tag_number}
use app_card.Nanopb.Substream.Resync.{substream}
use app_card.Nanopb.MessageDecoder.Delimited.{pb_decode_delimited-resync}
use app_card.Nanopb.Decoders.{pb_dec_uvarint, pb_dec_fixed32}
use app_card.Nanopb.FieldIter.Step.{IsTable}
use app_card.Nanopb.Runtime.{fail}
use app_card.Nanopb.MessageDecoder.{
  Progress, at_start, finish, decode_round, pb_decode, pb_decode_delimited,
}
use app_card.Nanopb.MessageDecoder.Counts.{finish-marked}
use app_card.Nanopb.IStream.Skip.{varint_value, last_group}
use app_card.Nanopb.MessageDecoder.Words.{marked}
use app_card.Nanopb.DecodeField.Scalars.{decode_static_field-Keeps}
use app_card.Nanopb.MessageDecoder.Unknown.{Skips, decode_round-Skips}
use app_card.Tests.Message.{sub_table}

abbrev pub rt : Runtime
rt = record {
  tables = λ a. if a == 8 then sub_table else [];
  decode = λ function field arg s. failed tt s;
  decode_extension = λ function extension tag wire_type s. failed tt s;
  realloc = λ ptr size m. (0, m);
  free = λ ptr m. m;
  fixed_count_at = λ depth. 4096;
}

abbrev pub wire : List ℕ
wire = 8 ∷ 150 ∷ 1 ∷ 18 ∷ 2 ∷ 8 ∷ 7 ∷ 26 ∷ 3 ∷ 1 ∷ 172 ∷ 2 ∷ []

abbrev pub input : Input
input = record { stream = pb_istream_from_buffer wire (length wire); memory = λ a. 255 }

abbrev whole : Input
whole = record {
  stream = record {
    callback = buf_read_callback;
    state = 8 ∷ 150 ∷ 1 ∷ [];
    bytes_left = 3;
    errmsg = none;
  };
  memory = λ a. 255;
}

abbrev bytes_of : Run Input (Unit {0}) (Unit {0}) → ℕ → List ℕ
bytes_of (ok a s) n = load_bytes n s.memory 64
bytes_of r n = []

-- A message of one number, over what was in memory.
decoded : bytes_of (pb_decode rt 2 0 sub_table 64 whole) 5 ≡ 150 ∷ 0 ∷ 0 ∷ 0 ∷ 255 ∷ []
unfolding pb_decode pb_field_iter_begin pb_field_iter_next pb_decode_tag pb_decode_varint32_eof
    pb_readbyte pb_field_iter_find pb_decoders pb_dec_uvarint pb_decode_varint varint_loop load
    store load_bytes store_bytes le_bytes clear
decoded = refl

abbrev pub last_field : PbField
last_field = record {
  tag = 0;
  type = 0;
  data_offset = 0;
  size_offset = 0;
  data_size = 0;
  array_size = 0;
  ptr = 0;
}

abbrev pub number_field : PbField
number_field = record {
  tag = 1;
  type = 0x02;
  data_offset = 0;
  size_offset = 0;
  data_size = 4;
  array_size = 0;
  ptr = 0;
}

pub number-IsTable : IsTable (number_field ∷ []) last_field
number-IsTable = record { tags = (ground arith, tt); last = refl }

-- The loop at the second of two required fields, where both were noted.
abbrev second_field : PbField
second_field = record number_field { tag = 2 }

abbrev both_seen : Progress
both_seen = record {
  iter = record {
    start = number_field ∷ second_field ∷ last_field ∷ [];
    pos = 1;
    required_field_index = 1;
    dest_struct = 64;
    p_data = 68;
    p_size = 68;
  };
  seen = marked (1 ∷ 0 ∷ []);
  extension_range_start = 0;
  fixed_count_field = none;
}

finish-marked_example :
    (((i : ℕ) → i < 2 → Mem i (1 ∷ 0 ∷ []))
      → finish rt (λ fields dest s. fault) (λ fields dest s. fault) 1 0 4096 both_seen input
        ≡ ok tt input)
    × ((i : ℕ)
        → i < 2
        → ¬ Mem i (1 ∷ 0 ∷ [])
        → finish rt (λ fields dest s. fault) (λ fields dest s. fault) 1 0 4096 both_seen input
          ≡ fail missing_required_field input)
finish-marked_example =
    finish-marked rt (λ fields dest s. fault) (λ fields dest s. fault) 1 0 4096 (1 ∷ 0 ∷ [])
      (number_field ∷ []) second_field [] last_field both_seen input
      (record {
        table = refl;
        pos = refl;
        index = refl;
        is_table = record { tags = (ground arith, (ground arith, tt)); last = refl };
        few = omega arith;
      })
      refl refl (ground arith)

-- The field 5, a number, in a message that has only the field 1.
abbrev new_field : IStream
new_field = pb_istream_from_buffer (40 ∷ 7 ∷ []) 2

abbrev at_first_field : Progress
at_first_field = at_start (record {
  start = sub_table;
  pos = 0;
  required_field_index = 0;
  dest_struct = 64;
  p_data = 64;
  p_size = 64;
})

decode_round-Skips_example :
    Skips at_first_field
      (varint (tag_number 0 5) ++ (7 ∷ []))
      []
      (record { stream = new_field; memory = λ a. 255 })
      (decode_round rt
        (λ fields dest s. fault)
        (λ fields dest s. fault)
        1
        0
        4096
        at_first_field
        (record { stream = new_field; memory = λ a. 255 }))
unfolding pb_istream_from_buffer wanted varint varint_of
decode_round-Skips_example =
    decode_round-Skips rt (λ fields dest s. fault) (λ fields dest s. fault) 1 0 4096
      (number_field ∷ []) last_field (refl, tt) 0 5 (7 ∷ []) [] at_first_field
      (record { stream = new_field; memory = λ a. 255 })
      (record { table = refl; inside = omega arith; is_table = number-IsTable }) (omega arith)
      (omega arith) (refl, tt) (varint_value refl (last_group (omega arith)))
      (record { callback = refl; state = refl; left = omega arith })

-- The same message with its length in front and a byte behind.
abbrev delimited : Input
delimited = record {
  stream = record {
    callback = buf_read_callback;
    state = 3 ∷ 8 ∷ 150 ∷ 1 ∷ 99 ∷ [];
    bytes_left = 5;
    errmsg = none;
  };
  memory = λ a. 255;
}

abbrev number_stored : Input
number_stored = record {
  stream = record { callback = buf_read_callback; state = 99 ∷ []; bytes_left = 0; errmsg = none };
  memory = store 4 150 (store 4 0 (clear 4 (λ a. 255) 64) 4096) 64;
}

decoded_alone :
    pb_decode rt 2 0 sub_table 64
      (record delimited { stream = substream (8 ∷ 150 ∷ 1 ∷ []) (99 ∷ []) (delimited.stream) })
    ≡ ok tt number_stored
unfolding pb_decode pb_field_iter_begin pb_field_iter_next pb_decode_tag pb_decode_varint32_eof
    pb_readbyte pb_field_iter_find pb_decoders pb_dec_uvarint pb_decode_varint varint_loop load
decoded_alone = refl

pb_decode_delimited-resync_example :
    pb_decode_delimited rt 2 0 sub_table 64 delimited
    ≡ ok tt (record number_stored {
      stream = record {
        callback = buf_read_callback;
        state = 99 ∷ [];
        bytes_left = 1;
        errmsg = none;
      };
    })
unfolding varint varint_of
pb_decode_delimited-resync_example =
    (pb_decode_delimited-resync rt 2 0 sub_table 64 (8 ∷ 150 ∷ 1 ∷ []) (99 ∷ []) delimited
        number_stored
        (record { short = omega arith; callback = refl; state = refl; holds = omega arith })
        (record { used = 8 ∷ 150 ∷ 1 ∷ []; callback = refl; state = refl; bytes_left = refl })).0
      decoded_alone

-- An array of at most two numbers of four bytes, with its count in front of it, and one packed item.
abbrev array_field : PbField
array_field = record {
  tag = 3;
  type = 0x24;
  data_offset = 4;
  size_offset = 2 ^ 32 - 4;
  data_size = 4;
  array_size = 2;
  ptr = 0;
}

abbrev at_array : FieldIter
at_array = record {
  start = array_field ∷ last_field ∷ [];
  pos = 0;
  required_field_index = 0;
  dest_struct = 60;
  p_data = 64;
  p_size = 60;
}

abbrev one_item : Input
one_item = record {
  stream = record {
    callback = buf_read_callback;
    state = 4 ∷ 1 ∷ 0 ∷ 0 ∷ 0 ∷ [];
    bytes_left = 5;
    errmsg = none;
  };
  memory = λ a. 0;
}

decode_static_field-Keeps_example : Keeps array_field at_array one_item (
    decode_static_field rt
      (λ fields dest m. fault)
      (pb_decoders rt (λ fields dest s. fault) (λ fields dest s. fault) 4)
      2
      array_field
      at_array
      one_item)
unfolding load
decode_static_field-Keeps_example =
    decode_static_field-Keeps rt (λ fields dest m. fault) (λ fields dest s. fault)
      (λ fields dest s. fault) array_field at_array one_item
      (record {
        repeated = refl;
        items = record {
          packable = refl;
          byte = omega arith;
          fixed32 = λ e. omega arith;
          fixed64 = λ e. absurd (omega (arith, e));
        };
        small = omega arith;
        fits = omega arith;
        entries = omega arith;
        apart = inl (omega arith);
      })
      (record { callback = refl; holds = omega arith }) (omega arith)

-- Four bytes of an item that is not packed.
abbrev bare_item : Input
bare_item = record {
  stream = record {
    callback = buf_read_callback;
    state = 1 ∷ 0 ∷ 0 ∷ 0 ∷ [];
    bytes_left = 4;
    errmsg = none;
  };
  memory = λ a. 0;
}

decode_item-Adds_example :
    Adds array_field at_array bare_item
      (decode_item (pb_dec_fixed32 array_field) array_field at_array bare_item)
unfolding load
decode_item-Adds_example =
    decode_item-Adds (pb_dec_fixed32 array_field) array_field at_array
      (record {
        decodes = λ a s h. pb_dec_fixed32-DecodesItem array_field a s h;
        small = omega arith;
        fits = omega arith;
        entries = omega arith;
        apart = inl (omega arith);
      })
      bare_item (record { callback = refl; holds = omega arith }) (omega arith)
