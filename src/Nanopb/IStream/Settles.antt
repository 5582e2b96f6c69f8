-- ===== src/Nanopb/IStream/Settles.antt =====
-- The decoders of single values, and the skipping of fields, on any bytes at all.
use app_card.Base.{
  ℕ, ◌+◌, ◌≡◌, arith, Run, ok, failed, fault, stuck, ◌==◌, pure, forget, bit_and, if◌then◌else◌,
  ◌>>=◌,
}
use app_card.Nanopb.Pb.{invalid_wire_type, wt_varint, wt_64bit, wt_string, wt_32bit}
use app_card.Nanopb.IStream.{
  IStream, return_error, read_checked, pb_read, pb_read_null, varint32_after, at_eof, not_eof,
  pb_decode_varint32_eof, pb_decode_varint32, pb_decode_varint, pb_skip_varint, pb_skip_string,
  pb_decode_tag, pb_skip_field,
}
use app_card.Nanopb.IStream.Safety.{
  Settled, IsReadable, Follows-refl, with_message, Settled-bind, if-Settled, if_run-Settled,
  readbyte_lem, ReadsByte-Settled, varint32_loop-Settled, varint_loop-Settled,
  skip_varint_loop-Settled, read_checked-Settled,
}

at_eof-Settled :
    (A : Type 0) (s : IStream) (r : Run IStream (Unit {0}) A) → Settled s r → Settled s (at_eof r)
at_eof-Settled A s (ok a t) h = h
at_eof-Settled A s (failed e t) h = h
at_eof-Settled A s fault h = h
at_eof-Settled A s stuck h = h

not_eof-Settled :
    (A : Type 0) (s : IStream) (r : Run IStream (Unit {0}) A) → Settled s r → Settled s (not_eof r)
not_eof-Settled A s (ok a t) h = h
not_eof-Settled A s (failed e t) h = h
not_eof-Settled A s fault h = h
not_eof-Settled A s stuck h = h

forget-Settled :
    (E A : Type 0) (s : IStream) (r : Run IStream E A) → Settled s r → Settled s (forget r)
forget-Settled E A s (ok a t) h = h
forget-Settled E A s (failed e t) h = h
forget-Settled E A s fault h = h
forget-Settled E A s stuck h = h

-- `pb_read` into a buffer.
pub pb_read-Settles : (count : ℕ) (s : IStream) → IsReadable s → Settled s (pb_read count s)
unfolding pb_read
pb_read-Settles count s h =
    if-Settled (count == 0) (pure _) (read_checked count) s (λ _. Follows-refl s)
      (λ _. read_checked-Settled count s h)

-- `pb_read` of a buffer stream with no buffer to read into.
pub pb_read_null-Settles :
    (count : ℕ) (s : IStream) → IsReadable s → Settled s (pb_read_null count s)
pb_read_null-Settles count s h = rw checked (
    if-Settled (count == 0) (pure tt) (read_checked count >>= (λ _. pure tt)) s
      (λ _. Follows-refl s)
      (λ _.
        Settled-bind (read_checked count s) _ h (read_checked-Settled count s h)
          (λ _ t _. Follows-refl t)))
  where
    checked :
        pb_read_null count s
        ≡ (if count == 0 then pure tt else (read_checked count >>= (λ _. pure tt))) s
    checked = unfold pb_read_null in ground arith

pub varint32_after-Settles :
    (byte : ℕ) (s : IStream) → IsReadable s → Settled s (varint32_after byte s)
varint32_after-Settles byte s h =
    if_run-Settled (bit_and byte 0x80 == 0) _ _ s (λ _. Follows-refl s)
      (λ _. varint32_loop-Settled (s.bytes_left + 1) 7 (bit_and byte 0x7f) s h (omega arith))

pub pb_decode_varint32_eof-Settles :
    (s : IStream) → IsReadable s → Settled s (pb_decode_varint32_eof s)
unfolding pb_decode_varint32_eof
pb_decode_varint32_eof-Settles s h =
    Settled-bind _ _ h (at_eof-Settled _ s _ (ReadsByte-Settled s _ (readbyte_lem s h)))
      λ byte t ht. not_eof-Settled _ t _ (varint32_after-Settles byte t ht)

pub pb_decode_varint32-Settles : (s : IStream) → IsReadable s → Settled s (pb_decode_varint32 s)
unfolding pb_decode_varint32
pb_decode_varint32-Settles s h = forget-Settled _ _ s _ (pb_decode_varint32_eof-Settles s h)

-- On any bytes `pb_decode_varint` of a buffer stream whose buffer holds what `bytes_left`
-- promises: it returns, without an access outside the buffer, and with success or failure it has
-- taken bytes off the front, as many as `bytes_left` went down by.
pb_decode_varint-Settles : (s : IStream) → IsReadable s → Settled s (pb_decode_varint s)
unfolding pb_decode_varint
pb_decode_varint-Settles s h = varint_loop-Settled 11 0 0 s h (omega arith) (omega arith)

pub pb_skip_varint-Settles : (s : IStream) → IsReadable s → Settled s (pb_skip_varint s)
unfolding pb_skip_varint
pb_skip_varint-Settles s h = skip_varint_loop-Settled (s.bytes_left + 1) s h (omega arith)

pub pb_skip_string-Settles : (s : IStream) → IsReadable s → Settled s (pb_skip_string s)
unfolding pb_skip_string
pb_skip_string-Settles s h =
    Settled-bind _ _ h (pb_decode_varint32-Settles s h)
      (λ size t ht. pb_read_null-Settles size t ht)

-- On any bytes `pb_decode_tag` of a buffer stream whose buffer holds what `bytes_left`
-- promises: it returns, without an access outside the buffer, and with success or failure it has
-- taken bytes off the front, as many as `bytes_left` went down by.
pub pb_decode_tag-Settles : (s : IStream) → IsReadable s → Settled s (pb_decode_tag s)
unfolding pb_decode_tag
pb_decode_tag-Settles s h =
    Settled-bind _ _ h (pb_decode_varint32_eof-Settles s h)
      λ temp t ht. if_run-Settled (temp == 0) _ _ t (λ _. Follows-refl t) (λ _. Follows-refl t)

-- For every wire type, valid or not, and any bytes `pb_skip_field` of a buffer stream whose buffer holds what `bytes_left`
-- promises: it returns, without an access outside the buffer, and with success or failure it has
-- taken bytes off the front, as many as `bytes_left` went down by.
pub pb_skip_field-Settles :
    (wire_type : ℕ) (s : IStream) → IsReadable s → Settled s (pb_skip_field wire_type s)
unfolding pb_skip_field
pb_skip_field-Settles w s h =
    if-Settled (w == wt_varint) pb_skip_varint _ s (λ _. pb_skip_varint-Settles s h)
      λ _.
        if-Settled (w == wt_64bit) (pb_read_null 8) _ s (λ _. pb_read_null-Settles 8 s h)
          λ _.
            if-Settled (w == wt_string) pb_skip_string _ s (λ _. pb_skip_string-Settles s h)
              λ _.
                if-Settled (w == wt_32bit) (pb_read_null 4) (return_error invalid_wire_type) s
                  (λ _. pb_read_null-Settles 4 s h) (λ _. with_message s)
