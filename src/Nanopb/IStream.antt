-- ===== src/Nanopb/IStream.antt =====
-- nanopb's pb_decode.c: input streams, and the decoders that read a single value from one.
pub mod Contract
pub mod Safety
pub mod Varint
pub mod Varint32
pub mod Settles
pub mod Skip
pub mod Leaves
pub mod Tags
use app_card.Base.{
  ℕ, zero, suc, ◌+◌, ◌-◌, ◌*◌, ◌/◌, ◌%◌, ◌^◌, Bool, true, false, not, ◌&&◌, ◌||◌, Option, none,
  some, List, [], ◌∷◌, bit_and, bit_or, ltb, leb, ◌==◌, if◌then◌else◌, length, take, drop, Run, ok,
  failed, fault, stuck, Cmd, and_then, ◌>>=◌, ◌>>◌, pure, forget,
}
use app_card.Nanopb.Pb.{
  ErrMsg, io_error, end_of_stream, varint_overflow, invalid_wire_type, parent_stream_too_short,
  set_error, wt_varint, wt_64bit, wt_string, wt_32bit,
}

-- The callback of a stream: `buf_read`, or one of the user. That one is given the count and the
-- stream's state, and answers with its success, what it stored at `buf`, and the new state.
pub data ICallback : Type 0 where
  buf_read_callback : ICallback
  user_callback : (ℕ → List ℕ → Bool × List ℕ × List ℕ) → ICallback

-- pb_istream_t. The state of a buffer stream, a pointer into the buffer, is the list of the
-- buffer's bytes from there on.
pub record IStream : Type 0 where
  pub callback : ICallback
  pub state : List ℕ
  pub bytes_left : ℕ
  pub errmsg : Option ErrMsg

abbrev pub Decoder : Type 0 → Type 0
Decoder A = Cmd IStream (Unit {0}) A

-- PB_RETURN_ERROR
abbrev pub return_error : {A : Type 0} → ErrMsg → Decoder A
return_error msg s = failed tt (record s { errmsg = set_error msg s.errmsg })

unfoldable pub pb_istream_from_buffer : List ℕ → ℕ → IStream
pb_istream_from_buffer buf bufsize = record {
  callback = buf_read_callback;
  state = buf;
  bytes_left = bufsize;
  errmsg = none;
}

unfoldable pub buf_read : ℕ → Decoder (List ℕ)
buf_read count s =
    if leb count (length s.state)
    then ok (take count s.state) (record s { state = drop count s.state })
    else fault

unfoldable pub call_user : (ℕ → List ℕ → Bool × List ℕ × List ℕ) → ℕ → Decoder (List ℕ)
call_user f count s =
    let (done, bytes, st) = f count s.state in
    let s' : IStream = record s { state = st } in
    if done then (if length bytes == count then ok bytes s' else fault) else failed tt s'

-- `stream->callback(stream, buf, count)`, with the bytes stored at `buf`.
unfoldable pub call : ICallback → ℕ → Decoder (List ℕ)
unfolding buf_read call_user
call buf_read_callback count s = buf_read count s
call (user_callback f) count s = call_user f count s

abbrev pub or_io_error : {A : Type 0} → Run IStream (Unit {0}) A → Run IStream (Unit {0}) A
or_io_error (ok a s) = ok a s
or_io_error (failed e s) = return_error io_error s
or_io_error fault = fault
or_io_error stuck = stuck

abbrev pub count_down : {A : Type 0} → ℕ → A → Decoder A
count_down count a s = ok a (record s { bytes_left = s.bytes_left - count })

-- `pb_read` from its check of `bytes_left` on.
unfoldable pub read_checked : ℕ → Decoder (List ℕ)
unfolding call
read_checked count s =
    if ltb s.bytes_left count
    then return_error end_of_stream s
    else and_then (or_io_error (call s.callback count s)) (count_down count)

-- `pb_read` into a buffer.
unfoldable pub pb_read : ℕ → Decoder (List ℕ)
unfolding read_checked
pb_read count = if count == 0 then pure [] else read_checked count

-- The loop of `pb_read` that skips 16 bytes at a time, for a callback that wants a buffer.
unfoldable pub skip_loop : ℕ → ℕ → Decoder (Unit {0})
skip_loop zero count s = stuck
skip_loop (suc fuel) count s =
    (if ltb 16 count
        then pb_read 16 >>= (λ _. skip_loop fuel (count - 16))
        else pb_read count >>= (λ _. pure tt))
      s

abbrev pub is_buf_read : ICallback → Bool
is_buf_read buf_read_callback = true
is_buf_read (user_callback f) = false

-- `pb_read(stream, NULL, count)`
unfoldable pub pb_read_null : ℕ → Decoder (Unit {0})
pb_read_null count s =
    if count == 0
    then ok tt s
    else if is_buf_read s.callback
    then and_then (read_checked count s) (λ _. pure tt)
    else skip_loop (count / 16 + 1) count s

-- One byte was asked for, so there is no other answer of the callback than one byte.
abbrev pub only_byte : List ℕ → Decoder ℕ
only_byte [] s = fault
only_byte (b ∷ bs) s = ok b s

unfoldable pub pb_readbyte : Decoder ℕ
unfolding call
pb_readbyte s =
    if s.bytes_left == 0
    then return_error end_of_stream s
    else and_then (and_then (or_io_error (call s.callback 1 s)) only_byte) (count_down 1)

-- What one more byte makes of `result`; `none` is the "varint overflow" inside the loop.
unfoldable pub varint32_step : ℕ → ℕ → ℕ → Option ℕ
varint32_step byte bitpos result =
    let sign_extension : ℕ = if ltb bitpos 63 then 0xff else 0x01 in
    if leb 32 bitpos
    then (if not (bit_and byte 0x7f == 0) && (result / 2 ^ 31 == 0 || not (byte == sign_extension))
        then none
        else some result)
    else some (bit_or result (bit_and byte 0x7f * 2 ^ bitpos % 2 ^ 32))

abbrev pub or_overflow : Option ℕ → (ℕ → Decoder ℕ) → Decoder ℕ
or_overflow none k = return_error varint_overflow
or_overflow (some result) k = k result

-- After the loop: the byte at bit 28 has only 4 bits that fit.
abbrev pub varint32_end : ℕ → ℕ → ℕ → Decoder ℕ
varint32_end byte bitpos result =
    if bitpos == 35 && not (bit_and byte 0x70 == 0)
    then return_error varint_overflow
    else pure result

-- `bitpos` is a uint_fast8_t, which has 8 bits.
unfoldable pub varint32_loop : ℕ → ℕ → ℕ → Decoder ℕ
varint32_loop zero bitpos result s = stuck
varint32_loop (suc fuel) bitpos result s = and_then (pb_readbyte s) λ byte.
    or_overflow (varint32_step byte bitpos result) λ result'.
      if bit_and byte 0x80 == 0
      then varint32_end byte ((bitpos + 7) % 2 ^ 8) result'
      else varint32_loop fuel ((bitpos + 7) % 2 ^ 8) result'

abbrev pub not_eof : {A : Type 0} → Run IStream (Unit {0}) A → Run IStream Bool A
not_eof (ok a s) = ok a s
not_eof (failed e s) = failed false s
not_eof fault = fault
not_eof stuck = stuck

abbrev pub at_eof : {A : Type 0} → Run IStream (Unit {0}) A → Run IStream Bool A
at_eof (ok a s) = ok a s
at_eof (failed e s) = failed (s.bytes_left == 0) s
at_eof fault = fault
at_eof stuck = stuck

abbrev pub varint32_after : ℕ → Decoder ℕ
varint32_after byte s =
    if bit_and byte 0x80 == 0
    then ok byte s
    else varint32_loop (s.bytes_left + 1) 7 (bit_and byte 0x7f) s

-- A failure says whether `*eof` was set. Every round of the loop takes a byte.
unfoldable pub pb_decode_varint32_eof : Cmd IStream Bool ℕ
pb_decode_varint32_eof s =
    and_then (at_eof (pb_readbyte s)) (λ byte t. not_eof (varint32_after byte t))

unfoldable pub pb_decode_varint32 : Decoder ℕ
pb_decode_varint32 s = forget (pb_decode_varint32_eof s)

-- The loop of `pb_decode_varint`, which an 11th round leaves at once.
unfoldable pub varint_loop : ℕ → ℕ → ℕ → Decoder ℕ
varint_loop zero bitpos result s = stuck
varint_loop (suc fuel) bitpos result s =
    let round : Decoder ℕ = pb_readbyte >>= λ byte.
    let result' = bit_or result (bit_and byte 0x7f * 2 ^ bitpos % 2 ^ 64) in
    if bit_and byte 0x80 == 0
    then pure result'
    else varint_loop fuel ((bitpos + 7) % 2 ^ 8) result' in
    (if leb 64 bitpos then return_error varint_overflow else round) s

unfoldable pub pb_decode_varint : Decoder ℕ
pb_decode_varint = varint_loop 11 0 0

unfoldable pub skip_varint_loop : ℕ → Decoder (Unit {0})
skip_varint_loop zero s = stuck
skip_varint_loop (suc fuel) s =
    and_then (and_then (pb_read 1 s) only_byte)
      λ byte. if bit_and byte 0x80 == 0 then pure tt else skip_varint_loop fuel

unfoldable pub pb_skip_varint : Decoder (Unit {0})
pb_skip_varint s = skip_varint_loop (s.bytes_left + 1) s

unfoldable pub pb_skip_string : Decoder (Unit {0})
pb_skip_string = pb_decode_varint32 >>= pb_read_null

-- What `pb_decode_tag` stores through its pointers on success.
pub record Tag : Type 0 where
  pub wire_type : ℕ
  pub tag : ℕ

abbrev pub split_tag : ℕ → Cmd IStream Bool Tag
split_tag temp s =
    if temp == 0
    then failed true s
    else ok (record { wire_type = bit_and temp 7; tag = temp / 2 ^ 3 }) s

-- A failure says whether `*eof` is set.
unfoldable pub pb_decode_tag : Cmd IStream Bool Tag
pb_decode_tag = pb_decode_varint32_eof >>= split_tag

unfoldable pub pb_skip_field : ℕ → Decoder (Unit {0})
pb_skip_field wire_type =
    if wire_type == wt_varint
    then pb_skip_varint
    else if wire_type == wt_64bit
    then pb_read_null 8
    else if wire_type == wt_string
    then pb_skip_string
    else if wire_type == wt_32bit
    then pb_read_null 4
    else return_error invalid_wire_type
