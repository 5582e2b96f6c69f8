-- ===== src/Nanopb/OStream/Bounds.antt =====
-- `pb_write` and what is built on it: the size of a stream is never exceeded, and measuring
-- gives the number of bytes that writing stores.
use app_card.Base.{
  ℕ, ◌+◌, ◌^◌, ◌≤◌, ◌<◌, ◌≡◌, refl, none, List, ◌++◌, length, length-append, leb, if◌then◌else◌, ok,
  failed, arith,
}
use app_card.Nanopb.Pb.{stream_full, set_error}
use app_card.Nanopb.OStream.{
  OStream, buf_write_callback, pb_write, pb_encode_string, pb_ostream_sizing,
  pb_ostream_from_buffer,
}
use app_card.Nanopb.OStream.Contract.{IsFull, measured, stored, pb_write-Emits}
use app_card.Nanopb.OStream.Varint.{varint, pb_encode_string-Emits}

-- `pb_write` of whole bytes to a buffer stream within its size, which is less than 2 ^ 64 as is
-- the number of bytes: it stores and counts them if they fit, and otherwise it fails with "stream
-- full" and stores and counts nothing.
pub pb_write-bounds :
    (bs : List ℕ) (s : OStream)
    → s.callback ≡ buf_write_callback
    → s.bytes_written ≤ s.max_size
    → s.max_size < 2 ^ 64
    → length bs < 2 ^ 64
    → pb_write bs (length bs) s ≡ (
        if leb (s.bytes_written + length bs) s.max_size
        then ok tt (stored bs s)
        else failed tt (record s { errmsg = set_error stream_full s.errmsg }))
unfolding pb_write
pb_write-bounds bs s c h m l =
    let fits : s.bytes_written + length bs ≤ s.max_size
        → pb_write bs (length bs) s ≡ ok tt (stored bs s) =
      λ r. (pb_write-Emits bs).writes s c r m tt in
    ground (arith, fits)

-- `pb_encode_string` to a buffer stream within its size that has no room for the length and the
-- bytes: it fails with "stream full", and what was stored and counted is a front of the two, within
-- the size. The size and the number of bytes are less than 2 ^ 64.
pub pb_encode_string-IsFull :
    (bs : List ℕ) (s : OStream)
    → s.callback ≡ buf_write_callback
    → s.bytes_written ≤ s.max_size
    → s.max_size < s.bytes_written + length (varint (length bs) ++ bs)
    → s.max_size < 2 ^ 64
    → length (varint (length bs) ++ bs) < 2 ^ 64
    → IsFull (varint (length bs) ++ bs) s (pb_encode_string bs (length bs) s)
pb_encode_string-IsFull bs s c h over m l =
    (pb_encode_string-Emits bs (omega (arith, length-append (varint (length bs)) bs))).overflows s c
      h over m l tt

-- Measuring a length and bytes, less than 2 ^ 64 in all, by `pb_encode_string` with
-- PB_OSTREAM_SIZING gives the size of a buffer that `pb_encode_string` then fills exactly.
pub pb_encode_string-sizing :
    (bs : List ℕ)
    → length (varint (length bs) ++ bs) < 2 ^ 64
    → (pb_encode_string bs (length bs) pb_ostream_sizing
        ≡ ok tt (measured (varint (length bs) ++ bs) pb_ostream_sizing))
      × (pb_encode_string bs
            (length bs)
            (pb_ostream_from_buffer (length (varint (length bs) ++ bs)))
          ≡ ok tt (record {
            callback = buf_write_callback;
            state = varint (length bs) ++ bs;
            max_size = length (varint (length bs) ++ bs);
            bytes_written = length (varint (length bs) ++ bs);
            errmsg = none;
          }))
unfolding pb_ostream_sizing pb_ostream_from_buffer
pb_encode_string-sizing bs h =
    let e = pb_encode_string-Emits bs (omega (arith, length-append (varint (length bs)) bs)) in
    (
      e.sizes pb_ostream_sizing refl (omega arith) tt,
      ground (
        arith,
        e.writes (pb_ostream_from_buffer (length (varint (length bs) ++ bs))) refl (omega arith)
            (omega arith) tt,
      ),
    )
