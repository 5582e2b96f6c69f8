-- ===== src/Tests/Fields.antt =====
-- The search for a field and the decoders of bytes and strings, at concrete inputs.
use app_card.Base.{◌≡◌, ◌≢◌, ◌⊎◌, refl, ok, [], ◌∷◌, ◌++◌, arith}
use app_card.Nanopb.Pb.{PbField}
use app_card.Nanopb.Memory.{set_byte, store_bytes}
use app_card.Nanopb.OStream.Varint.{varint}
use app_card.Nanopb.IStream.{
  pb_decode_varint32, pb_decode_varint32_eof, pb_readbyte, pb_read, read_checked,
}
use app_card.Nanopb.IStream.Contract.{after}
use app_card.Nanopb.Decoders.{pb_dec_bytes, pb_dec_string}
use app_card.Nanopb.Decoders.Confined.{Confined}
use app_card.Nanopb.Decoders.Within.{pb_dec_bytes-Confined, pb_dec_string-Confined}
use app_card.Nanopb.FieldIter.{
  FieldIter, pb_field_iter_find, pb_field_iter_next, pb_field_iter_begin, find_loop, wanted,
}
use app_card.Nanopb.FieldIter.Step.{IsTable}
use app_card.Nanopb.FieldIter.Walk.{Found}
use app_card.Nanopb.FieldIter.Find.{Missed, pb_field_iter_find-cases}
use app_card.Tests.{
  behind, source, source-IsReadable, abc, memory, field, input, field8, no_realloc,
}

-- The table of a message with a required field 1 and a string field 3.
abbrev field3 : PbField
field3 = record field { tag = 3; type = 0x17; data_offset = 4; data_size = 16 }

abbrev end_field : PbField
end_field = record field { tag = 0; type = 0; data_size = 0 }

abbrev iter : FieldIter
iter = record {
  start = field ∷ field3 ∷ end_field ∷ [];
  pos = 1;
  required_field_index = 1;
  dest_struct = 64;
  p_data = 72;
  p_size = 72;
}

-- The search goes around from the second field to the first.
find_around :
    pb_field_iter_find 1 iter
    ≡ ok tt (record iter { pos = 0; required_field_index = 0; p_data = 64; p_size = 64 })
unfolding pb_field_iter_find pb_field_iter_next pb_field_iter_begin find_loop wanted
find_around = refl

two_fields-IsTable : IsTable (field ∷ field3 ∷ []) end_field
two_fields-IsTable = record { tags = (one_tag, (three_tag, tt)); last = refl }
  where
    one_tag : field.tag ≢ 0
    one_tag = omega arith

    three_tag : field3.tag ≢ 0
    three_tag = omega arith

pb_field_iter_find-cases_example :
    Found 7 (field ∷ field3 ∷ end_field ∷ []) (pb_field_iter_find 7 iter)
    ⊎ Missed (field ∷ field3 ∷ []) 1 7 (field ∷ field3 ∷ end_field ∷ []) (pb_field_iter_find 7 iter)
pb_field_iter_find-cases_example =
    pb_field_iter_find-cases (field ∷ []) field3 [] end_field 7 iter two_fields-IsTable refl refl

pb_dec_bytes-Confined_example :
    Confined 16 8
      (input (varint 3 ++ abc))
      (pb_dec_bytes no_realloc field8 16 (input (varint 3 ++ abc)))
pb_dec_bytes-Confined_example =
    pb_dec_bytes-Confined no_realloc field8 16 (input (varint 3 ++ abc))
      (source-IsReadable (varint 3 ++ abc)) refl

pb_dec_string-Confined_example :
    Confined 16 8
      (input (varint 3 ++ abc))
      (pb_dec_string no_realloc field8 16 (input (varint 3 ++ abc)))
pb_dec_string-Confined_example =
    pb_dec_string-Confined no_realloc field8 16 (input (varint 3 ++ abc))
      (source-IsReadable (varint 3 ++ abc)) refl

-- The string and its terminator, in memory.
string_stored :
    pb_dec_string no_realloc field8 16 (input (3 ∷ abc))
    ≡ ok tt (record {
      stream = after (3 ∷ abc) behind (source (3 ∷ abc));
      memory = set_byte (store_bytes abc memory 16) 19 0;
    })
unfolding pb_dec_string pb_decode_varint32 pb_decode_varint32_eof pb_readbyte pb_read read_checked
    store_bytes
string_stored = refl
