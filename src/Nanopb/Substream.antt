-- ===== src/Nanopb/Substream.antt =====
-- nanopb's pb_decode.c: substreams for length-prefixed fields, and raw values for callbacks.
pub mod Opens
pub mod Resync
use app_card.Base.{
  ℕ, zero, suc, ◌-◌, List, [], ◌∷◌, ◌++◌, ltb, ◌==◌, bit_and, if◌then◌else◌, Run, ok, failed, fault,
  stuck, and_then, ◌>>=◌, pure,
}
use app_card.Nanopb.Pb.{
  parent_stream_too_short, invalid_wire_type, wt_varint, wt_64bit, wt_string, wt_32bit,
}
use app_card.Nanopb.IStream.{
  IStream, Decoder, return_error, pb_read, pb_read_null, only_byte, pb_decode_varint32,
}

-- The varint case of `read_raw_value`, with room for so many more bytes; `buf` is what was read.
unfoldable pub read_raw_varint : ℕ → List ℕ → Decoder (List ℕ)
read_raw_varint zero buf s = failed tt s
read_raw_varint (suc room) buf s = and_then (and_then (pb_read 1 s) only_byte) λ byte.
    let buf' = buf ++ (byte ∷ []) in
    if bit_and byte 0x80 == 0 then pure buf' else read_raw_varint room buf'

-- The bytes stand for the buffer, and their number for `*size`.
unfoldable pub read_raw_value : ℕ → ℕ → Decoder (List ℕ)
unfolding read_raw_varint
read_raw_value wire_type max_size =
    if wire_type == wt_varint
    then read_raw_varint max_size []
    else if wire_type == wt_64bit
    then pb_read 8
    else if wire_type == wt_32bit
    then pb_read 4
    else return_error invalid_wire_type

abbrev pub limited : ℕ → Decoder IStream
limited size s =
    if ltb s.bytes_left size
    then return_error parent_stream_too_short s
    else ok (record s { bytes_left = size }) (record s { bytes_left = s.bytes_left - size })

-- The value is the substream.
unfoldable pub pb_make_string_substream : Decoder IStream
pb_make_string_substream = pb_decode_varint32 >>= limited

-- `stream` takes over the state and the message of a substream that was read to its end.
abbrev pub take_over :
    IStream → Run IStream (Unit {0}) (Unit {0}) → Run IStream (Unit {0}) (Unit {0})
take_over stream (ok a sub) = ok tt (record stream { state = sub.state; errmsg = sub.errmsg })
take_over stream (failed e sub) = failed tt stream
take_over stream fault = fault
take_over stream stuck = stuck

unfoldable pub pb_close_string_substream : IStream → Decoder (Unit {0})
pb_close_string_substream substream stream = take_over stream (
    if substream.bytes_left == 0
    then ok tt substream
    else pb_read_null substream.bytes_left substream)
