-- ===== src/Tests/Streams.antt =====
-- Streams, substreams and base 64, at concrete inputs.
use app_card.Base.{
  ◌≡◌, refl, ok, failed, [], ◌∷◌, ◌++◌, length, some, none, true, arith, append_assoc,
  length-append,
}
use app_card.Nanopb.Pb.{stream_full}
use app_card.Nanopb.Memory.{Memory, load_bytes}
use app_card.Nanopb.OStream.{
  buf_write_callback, pb_write, pb_encode_string, pb_ostream_sizing, pb_ostream_from_buffer,
}
use app_card.Nanopb.OStream.Contract.{IsFull, measured}
use app_card.Nanopb.OStream.Varint.{varint, varint_of}
use app_card.Nanopb.OStream.Bounds.{
  pb_write-bounds, pb_encode_string-IsFull, pb_encode_string-sizing,
}
use app_card.Nanopb.IStream.{IStream, buf_read_callback, pb_decode_tag, pb_skip_field}
use app_card.Nanopb.IStream.Safety.{Follows, Settled, IsReadable}
use app_card.Nanopb.IStream.Settles.{pb_decode_tag-Settles, pb_skip_field-Settles}
use app_card.Nanopb.Substream.{pb_make_string_substream, pb_close_string_substream}
use app_card.Nanopb.Substream.Resync.{substream, parent, substream_resync}
use app_card.Base64.{digit, f_b64_ntop, f_b64_pton}
use app_card.Base64.Encode.{encoding, f_b64_ntop-encoding}
use app_card.Base64.RoundTrip.{f_b64_pton-encoding}
use app_card.Tests.{behind, source, abc, abc-IsByte, memory}

pb_write-bounds_example :
    pb_write abc 3 (pb_ostream_from_buffer 2)
    ≡ failed tt (record {
      callback = buf_write_callback;
      state = [];
      max_size = 2;
      bytes_written = 0;
      errmsg = some stream_full;
    })
unfolding pb_ostream_from_buffer
pb_write-bounds_example =
    pb_write-bounds abc (pb_ostream_from_buffer 2) refl (omega arith) (omega arith) (omega arith)

pb_encode_string-IsFull_example :
    IsFull
      (varint 3 ++ abc)
      (pb_ostream_from_buffer 3)
      (pb_encode_string abc 3 (pb_ostream_from_buffer 3))
unfolding pb_ostream_from_buffer
pb_encode_string-IsFull_example =
    pb_encode_string-IsFull abc (pb_ostream_from_buffer 3) refl (omega arith)
      (unfold varint varint_of in omega arith) (omega arith)
      (unfold varint varint_of in omega arith)

pb_encode_string-sizing_example :
    (pb_encode_string abc 3 pb_ostream_sizing
      ≡ ok tt (measured (varint 3 ++ abc) pb_ostream_sizing))
    × (pb_encode_string abc 3 (pb_ostream_from_buffer (length (varint 3 ++ abc)))
        ≡ ok tt (record {
          callback = buf_write_callback;
          state = varint 3 ++ abc;
          max_size = length (varint 3 ++ abc);
          bytes_written = length (varint 3 ++ abc);
          errmsg = none;
        }))
pb_encode_string-sizing_example =
    pb_encode_string-sizing abc (unfold varint varint_of in omega arith)

-- A buffer with a length that promises more than there is.
abbrev malformed : IStream
malformed = record {
  callback = buf_read_callback;
  state = 200 ∷ 1 ∷ 7 ∷ [];
  bytes_left = 3;
  errmsg = none;
}

malformed-IsReadable : IsReadable malformed
malformed-IsReadable = record { callback = refl; holds = omega arith }

pb_skip_field-Settles_example : Settled malformed (pb_skip_field 2 malformed)
pb_skip_field-Settles_example = pb_skip_field-Settles 2 malformed malformed-IsReadable

pb_decode_tag-Settles_example : Settled malformed (pb_decode_tag malformed)
pb_decode_tag-Settles_example = pb_decode_tag-Settles malformed malformed-IsReadable

-- A decoder of the field `abc` took one byte of it.
abbrev prefixed : IStream
prefixed = source (varint 3 ++ abc)

abbrev partly_read : IStream
partly_read = record (substream abc behind prefixed) { state = 98 ∷ 99 ∷ behind; bytes_left = 2 }

partly_read-Follows : Follows (substream abc behind prefixed) partly_read
partly_read-Follows = record { used = 97 ∷ []; callback = refl; state = refl; bytes_left = refl }

substream_resync_example :
    (pb_make_string_substream prefixed
      ≡ ok (substream abc behind prefixed) (parent abc behind prefixed))
    × (pb_close_string_substream partly_read (parent abc behind prefixed)
        ≡ ok tt (record (parent abc behind prefixed) { state = behind; errmsg = none }))
substream_resync_example =
    substream_resync abc prefixed behind partly_read (omega arith) refl prefixed_state
      (omega (arith, length-append (varint 3) abc)) partly_read-Follows
  where
    prefixed_state : prefixed.state ≡ varint 3 ++ (abc ++ behind)
    prefixed_state = append_assoc (varint 3) abc behind

f_b64_ntop-encoding_example :
    f_b64_ntop abc 5 ≡ some (record { target = 89 ∷ 87 ∷ 74 ∷ 106 ∷ 0 ∷ []; result = 4 })
unfolding encoding digit
f_b64_ntop-encoding_example = f_b64_ntop-encoding abc 5 abc-IsByte

f_b64_pton-encoding_example :
    (m : Memory) × (f_b64_pton (encoding abc) true memory 4 ≡ some (m, 3))
    × (load_bytes 3 m 0 ≡ abc)
f_b64_pton-encoding_example =
    f_b64_pton-encoding abc 4 memory abc-IsByte (omega arith) (omega arith)
