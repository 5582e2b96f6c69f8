-- ===== src/Nanopb/DecodeField.antt =====
-- nanopb's pb_decode.c: the decoding of one field into its place in a message, for each kind of
-- allocation, and of an extension.
pub mod Arrays
pub mod Items
pub mod Integers
pub mod Scalars
pub mod Values
pub mod Fields
use app_card.Base.{
  ℕ, zero, suc, ◌+◌, ◌*◌, ◌%◌, ◌^◌, Bool, not, ◌&&◌, List, ◌==◌, ltb, leb, if◌then◌else◌, Run, ok,
  failed, fault, stuck, ◌>>◌, ◌>>=◌,
}
use app_card.Nanopb.Pb.{
  PbField, htype, ltype, htype_required, htype_optional, htype_repeated, ltype_bool, ltype_varint,
  ltype_uvarint, ltype_svarint, ltype_fixed32, ltype_fixed64, ltype_last_packable, ltype_bytes,
  ltype_string, ltype_submessage, ltype_fixed_length_bytes, wt_string, array_overflow,
  invalid_field_descriptor,
}
use app_card.Nanopb.Memory.{load, store, clear}
use app_card.Nanopb.IStream.{IStream}
use app_card.Nanopb.Substream.{pb_make_string_substream, pb_close_string_substream}
use app_card.Nanopb.FieldIter.{FieldIter}
use app_card.Nanopb.Decoders.{
  Input, FieldDecoder, on_stream, lift, write, put, pb_dec_bool, pb_dec_varint, pb_dec_uvarint,
  pb_dec_svarint, pb_dec_fixed32, pb_dec_fixed64, pb_dec_fixed_length_bytes, pb_dec_bytes,
  pb_dec_string,
}
use app_card.Nanopb.Runtime.{Runtime, Effect, change, on_memory, fail}

-- What a decoder of PB_DECODERS is: a function of the field and the address of the value.
abbrev pub ValueDecoder : Type 0
ValueDecoder = PbField → ℕ → FieldDecoder

abbrev pub as_failed : Run Input (Unit {0}) (Unit {0}) → Run Input (Unit {0}) (Unit {0})
as_failed (ok a s) = failed tt s
as_failed (failed e s) = failed tt s
as_failed fault = fault
as_failed stuck = stuck

-- The substream is closed and then its status returned.
unfoldable pub close_with :
    IStream → Run Input (Unit {0}) (Unit {0}) → Run Input (Unit {0}) (Unit {0})
close_with stream (ok a s) = on_stream s.memory (pb_close_string_substream s.stream stream)
close_with stream (failed e s) =
    as_failed (on_stream s.memory (pb_close_string_substream s.stream stream))
close_with stream fault = fault
close_with stream stuck = stuck

-- A decoder in the substream of a length-prefixed field.
unfoldable pub in_substream : FieldDecoder → FieldDecoder
unfolding close_with
in_substream body = lift pb_make_string_substream >>= λ substream s.
    close_with s.stream (body (record s { stream = substream }))

-- `message` is `pb_decode` and `message_noinit` is `pb_decode_noinit`.
abbrev pub MessageDecoder : Type 0
MessageDecoder = List PbField → ℕ → FieldDecoder

-- `(*size)++`
abbrev pub count_up : ℕ → FieldDecoder
count_up p_size = write (λ m. store 4 ((load 4 m p_size + 1) % 2 ^ 32) m p_size)

-- The address of an item. Both factors are 32-bit numbers, and so is their product.
abbrev pub item_at : PbField → ℕ → ℕ → ℕ
item_at f p_data index = (p_data + f.data_size * index % 2 ^ 32) % 2 ^ 64

-- The loop over a packed array. Each round takes a byte.
unfoldable pub packed_loop : (ℕ → FieldDecoder) → PbField → FieldIter → ℕ → FieldDecoder
packed_loop func f iter zero s = stuck
packed_loop func f iter (suc fuel) s =
    let size = load 4 s.memory iter.p_size in
    (if not (ltb 0 s.stream.bytes_left && ltb size f.array_size)
        then write (λ m. m)
        else func (item_at f iter.p_data size)
          >> count_up iter.p_size
          >> packed_loop func f iter fuel)
      s

-- What is left in the substream when the loop ends did not fit the array.
unfoldable pub packed_end :
    IStream → Run Input (Unit {0}) (Unit {0}) → Run Input (Unit {0}) (Unit {0})
unfolding close_with
packed_end stream (ok a s) =
    if not (s.stream.bytes_left == 0)
    then fail array_overflow (record s { stream = stream })
    else close_with stream (ok a s)
packed_end stream (failed e s) =
    if not (s.stream.bytes_left == 0)
    then fail array_overflow (record s { stream = stream })
    else close_with stream (failed e s)
packed_end stream fault = fault
packed_end stream stuck = stuck

unfoldable pub decode_packed : (ℕ → FieldDecoder) → PbField → FieldIter → FieldDecoder
unfolding packed_loop packed_end
decode_packed func f iter = lift pb_make_string_substream >>= λ substream s.
    packed_end s.stream
      (packed_loop func f iter (substream.bytes_left + 1) (record s { stream = substream }))

-- One item of an array. The count goes up before it is checked.
unfoldable pub decode_item : (ℕ → FieldDecoder) → PbField → FieldIter → FieldDecoder
decode_item func f iter s =
    let size = load 4 s.memory iter.p_size in
    (count_up iter.p_size
        >> (if leb f.array_size size
            then fail array_overflow
            else func (item_at f iter.p_data size)))
      s

abbrev pub is_packed : ℕ → PbField → Bool
is_packed wire_type f = wire_type == wt_string && leb (ltype f.type) ltype_last_packable

module _ (rt : Runtime) where
  unfoldable pub pb_dec_submessage : MessageDecoder → MessageDecoder → ValueDecoder
  unfolding close_with
  pb_dec_submessage message message_noinit field dest =
      lift pb_make_string_substream >>= λ substream s.
      if field.ptr == 0
      then fail invalid_field_descriptor s
      else close_with s.stream (
          (if htype field.type == htype_repeated
              then message (rt.tables field.ptr) dest
              else message_noinit (rt.tables field.ptr) dest)
            (record s { stream = substream }))

  -- PB_DECODERS, called at an index. There is no function for extensions, and none behind the last.
  unfoldable pub pb_decoders : MessageDecoder → MessageDecoder → ℕ → ValueDecoder
  unfolding pb_dec_submessage
  pb_decoders message message_noinit lt field dest =
      if lt == ltype_bool
      then pb_dec_bool field dest
      else if lt == ltype_varint
      then pb_dec_varint field dest
      else if lt == ltype_uvarint
      then pb_dec_uvarint field dest
      else if lt == ltype_svarint
      then pb_dec_svarint field dest
      else if lt == ltype_fixed32
      then pb_dec_fixed32 field dest
      else if lt == ltype_fixed64
      then pb_dec_fixed64 field dest
      else if lt == ltype_bytes
      then pb_dec_bytes rt.realloc field dest
      else if lt == ltype_string
      then pb_dec_string rt.realloc field dest
      else if lt == ltype_submessage
      then pb_dec_submessage message message_noinit field dest
      else if lt == ltype_fixed_length_bytes
      then pb_dec_fixed_length_bytes field dest
      else (λ s. fault)

  -- `defaults` is `pb_message_set_to_defaults`, and `func` the decoder of the field's values. The
  -- mask of PB_HTYPE leaves no other repetition rule than the four.
  unfoldable pub decode_static_field :
      (List PbField → ℕ → Effect) → ValueDecoder → ℕ → PbField → FieldIter → FieldDecoder
  unfolding decode_packed decode_item
  decode_static_field defaults func wire_type f iter =
      let ht = htype f.type in
      if ht == htype_required
      then func f iter.p_data
      else if ht == htype_optional
      then (if not (iter.p_size == iter.p_data) then put 1 1 iter.p_size else write (λ m. m))
        >> func f iter.p_data
      else if ht == htype_repeated
      then (if is_packed wire_type f
          then decode_packed (func f) f iter
          else decode_item (func f) f iter)
      else put 4 f.tag iter.p_size
        >> (if ltype f.type == ltype_submessage
            then on_memory (
                change (λ m. clear f.data_size m iter.p_data)
                >> defaults (rt.tables f.ptr) iter.p_data)
            else write (λ m. m))
        >> func f iter.p_data
