-- ===== src/Nanopb/OStream.antt =====
-- nanopb's pb_encode.c: output streams, and the encoders that write a single value to one.
pub mod Contract
pub mod Varint
pub mod Bounds
use app_card.Base.{
  ℕ, zero, suc, ◌+◌, ◌-◌, ◌*◌, ◌/◌, ◌%◌, ◌^◌, Bool, true, false, not, ◌&&◌, ◌||◌, Option, none,
  some, List, [], ◌∷◌, ◌++◌, bit_and, bit_or, ltb, leb, ◌==◌, if◌then◌else◌, length, take, Run, ok,
  failed, fault, stuck, Cmd, ◌>>=◌, ◌>>◌,
}
use app_card.Nanopb.Pb.{
  ErrMsg, stream_full, io_error, invalid_field_type, set_error, PbField, ltype, ltype_bool,
  ltype_varint, ltype_uvarint, ltype_svarint, ltype_fixed32, ltype_fixed64, ltype_bytes,
  ltype_string, ltype_submessage, ltype_fixed_length_bytes, wt_varint, wt_64bit, wt_string,
  wt_32bit,
}
use mathlib.Core.Option

-- The callback of a stream: NULL for a sizing stream, `buf_write`, or one of the user. That one
-- is given the bytes and the stream's state, and answers with its success and the new state.
pub data OCallback : Type 0 where
  null_callback buf_write_callback : OCallback
  user_callback : (List ℕ → List ℕ → Bool × List ℕ) → OCallback

-- pb_ostream_t. The state of a buffer stream, a pointer into the buffer, is the list of the
-- bytes that stand before it.
pub record OStream : Type 0 where
  pub callback : OCallback
  pub state : List ℕ
  pub max_size : ℕ
  pub bytes_written : ℕ
  pub errmsg : Option ErrMsg

abbrev pub Encoder : Type 0
Encoder = Cmd OStream (Unit {0}) (Unit {0})

-- PB_RETURN_ERROR
abbrev pub return_error : ErrMsg → Encoder
return_error msg s = failed tt (record s { errmsg = set_error msg s.errmsg })

-- `buf` holds what can be read at the pointer; a NULL pointer has nothing there.
unfoldable pub buf_write : List ℕ → ℕ → Encoder
buf_write buf count s =
    if leb count (length buf) then ok tt (record s { state = s.state ++ take count buf }) else fault

unfoldable pub call_user : (List ℕ → List ℕ → Bool × List ℕ) → List ℕ → ℕ → Encoder
call_user f buf count s =
    let (done, st) = f (take count buf) s.state in
    let s' : OStream = record s { state = st } in
    if leb count (length buf) then (if done then ok tt s' else failed tt s') else fault

-- `stream->callback(stream, buf, count)`
unfoldable pub call : OCallback → List ℕ → ℕ → Encoder
unfolding buf_write call_user
call null_callback buf count s = fault
call buf_write_callback buf count s = buf_write buf count s
call (user_callback f) buf count s = call_user f buf count s

unfoldable pub pb_ostream_from_buffer : ℕ → OStream
pb_ostream_from_buffer bufsize = record {
  callback = buf_write_callback;
  state = [];
  max_size = bufsize;
  bytes_written = 0;
  errmsg = none;
}

-- PB_OSTREAM_SIZING
unfoldable pub pb_ostream_sizing : OStream
pb_ostream_sizing = record {
  callback = null_callback;
  state = [];
  max_size = 0;
  bytes_written = 0;
  errmsg = none;
}

abbrev pub is_null : OCallback → Bool
is_null null_callback = true
is_null buf_write_callback = false
is_null (user_callback f) = false

abbrev pub or_io_error : Run OStream (Unit {0}) (Unit {0}) → Run OStream (Unit {0}) (Unit {0})
or_io_error (ok a s) = ok a s
or_io_error (failed e s) = return_error io_error s
or_io_error fault = fault
or_io_error stuck = stuck

abbrev pub count_bytes : ℕ → Encoder
count_bytes count s = ok tt (record s { bytes_written = (s.bytes_written + count) % 2 ^ 64 })

unfoldable pub pb_write : List ℕ → ℕ → Encoder
unfolding call
pb_write buf count s =
    if ltb 0 count && not (is_null s.callback)
    then (let total = (s.bytes_written + count) % 2 ^ 64 in
        if ltb total s.bytes_written || ltb s.max_size total
        then return_error stream_full s
        else ((λ t. or_io_error (call t.callback buf count t)) >> count_bytes count) s)
    else count_bytes count s

-- The loop `while (value)`, with `room` bytes left in `buffer`. `none` is a write behind its end.
unfoldable pub varint_loop : ℕ → ℕ → Option (List ℕ)
varint_loop zero value = if value == 0 then some [] else none
varint_loop (suc room) value =
    let rest = varint_loop room (value / 2 ^ 7) in
    if value == 0
    then some []
    else Option.map (λ bs. (bit_or (bit_and value 0x7f) 0x80 % 2 ^ 8) ∷ bs) rest

-- `buffer[i-1] &= 0x7F`, which would write before the buffer if it held nothing.
unfoldable pub unset_top_bit_of_last : List ℕ → Option (List ℕ)
unset_top_bit_of_last [] = none
unset_top_bit_of_last (b ∷ []) = some (bit_and b 0x7f ∷ [])
unset_top_bit_of_last (b ∷ c ∷ bs) = Option.map (λ r. b ∷ r) (unset_top_bit_of_last (c ∷ bs))

abbrev pub write_all : Option (List ℕ) → Encoder
write_all none s = fault
write_all (some buf) s = pb_write buf (length buf) s

abbrev pub write_digits : Option (List ℕ) → Encoder
write_digits none s = fault
write_digits (some buf) s = write_all (unset_top_bit_of_last buf) s

unfoldable pub pb_encode_varint : ℕ → Encoder
pb_encode_varint value =
    if leb value 0x7f
    then pb_write ((value % 2 ^ 8) ∷ []) 1
    else write_digits (varint_loop 10 value)

-- An int64_t is its bit pattern: `value < 0` is its top bit, and `~x` is `2 ^ 64 - 1 - x`.
unfoldable pub pb_encode_svarint : ℕ → Encoder
pb_encode_svarint value =
    let shifted = value * 2 % 2 ^ 64 in
    pb_encode_varint (if leb (2 ^ 63) value then 2 ^ 64 - 1 - shifted else shifted)

unfoldable pub pb_encode_fixed32 : ℕ → Encoder
pb_encode_fixed32 val =
    pb_write
      (bit_and val 0xff
        ∷ bit_and (val / 2 ^ 8) 0xff
        ∷ bit_and (val / 2 ^ 16) 0xff
        ∷ bit_and (val / 2 ^ 24) 0xff
        ∷ [])
      4

unfoldable pub pb_encode_fixed64 : ℕ → Encoder
pb_encode_fixed64 val =
    pb_write
      (bit_and val 0xff
        ∷ bit_and (val / 2 ^ 8) 0xff
        ∷ bit_and (val / 2 ^ 16) 0xff
        ∷ bit_and (val / 2 ^ 24) 0xff
        ∷ bit_and (val / 2 ^ 32) 0xff
        ∷ bit_and (val / 2 ^ 40) 0xff
        ∷ bit_and (val / 2 ^ 48) 0xff
        ∷ bit_and (val / 2 ^ 56) 0xff
        ∷ [])
      8

unfoldable pub pb_encode_tag : ℕ → ℕ → Encoder
pb_encode_tag wiretype field_number =
    pb_encode_varint (bit_or (field_number * 2 ^ 3 % 2 ^ 64) wiretype)

-- The switch of `pb_encode_tag_for_field`; `none` is its default case.
unfoldable pub wire_type_of : ℕ → Option ℕ
wire_type_of lt =
    if lt == ltype_bool || lt == ltype_varint || lt == ltype_uvarint || lt == ltype_svarint
    then some wt_varint
    else if lt == ltype_fixed32
    then some wt_32bit
    else if lt == ltype_fixed64
    then some wt_64bit
    else if lt == ltype_bytes
        || lt == ltype_string
        || lt == ltype_submessage
        || lt == ltype_fixed_length_bytes
    then some wt_string
    else none

unfoldable pub pb_encode_tag_for_field : PbField → Encoder
unfolding wire_type_of
pb_encode_tag_for_field field = elim (wire_type_of (ltype field.type)) [
  | none ↦ return_error invalid_field_type
  | some wiretype ↦ pb_encode_tag wiretype field.tag
]

unfoldable pub pb_encode_string : List ℕ → ℕ → Encoder
pb_encode_string buffer size = pb_encode_varint size >> pb_write buffer size
