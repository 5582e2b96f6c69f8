-- ===== src/Nanopb/MessageEncoder/Outcomes.antt =====
-- What `pb_encode` and the functions around it do with a message that has a wire format.
use app_card.Base.{
  ℕ, ◌+◌, ◌^◌, ◌≤◌, ◌<◌, ◌≡◌, refl, ap, none, some, List, [], ◌∷◌, ◌++◌, length, ok, arith,
}
use app_card.Nanopb.Pb.{PbField}
use app_card.Nanopb.Memory.{Memory}
use app_card.Nanopb.OStream.{OStream, buf_write_callback, pb_ostream_from_buffer}
use app_card.Nanopb.OStream.Contract.{Sends, Emits-Sends, IsFull, stored, pb_write-Emits, seq-Emits}
use app_card.Nanopb.OStream.Varint.{varint}
use app_card.Nanopb.RoundTrip.{HasRoom}
use app_card.Nanopb.Encoders.Emit.{IsBytes}
use app_card.Nanopb.Environment.{Environment}
use app_card.Nanopb.MessageEncoder.{
  pb_encode, pb_encode_delimited, pb_encode_nullterminated, pb_get_encoded_size,
}
use app_card.Nanopb.MessageEncoder.Wire.{UserWire, prefixed, message_bytes}
use app_card.Nanopb.MessageEncoder.Implements.{sizing, submessage-Implements}
use app_card.Nanopb.MessageEncoder.Fields.{IsFaithful}
use app_card.Nanopb.MessageEncoder.Refines.{message-Implements}

-- A stream without a message, of the size of an object.
pub record IsFresh (o : OStream) : Type 0 where
  pub errmsg : o.errmsg ≡ none
  pub size : o.max_size < 2 ^ 63

module _ (env : Environment) (m : Memory) (user : UserWire) (depth links : ℕ)
    (fields : List PbField) (src : ℕ) (bs : List ℕ) (bytes : IsBytes m)
    (faithful : IsFaithful env user)
    (format : message_bytes env m user depth links fields src ≡ some bs) where
  sends : Sends (pb_encode env m depth links fields src) bs
  sends = message-Implements env m user bytes faithful depth links fields src bs format

  -- A message in a memory of bytes that has a wire format, the functions of the user writing what
  -- they are said to: `pb_encode` stores the format in a fresh buffer stream with room for it.
  pub pb_encode-message_bytes :
      (o : OStream)
      → HasRoom bs o
      → IsFresh o
      → pb_encode env m depth links fields src o ≡ ok tt (stored bs o)
  pb_encode-message_bytes o r f = sends.writes o r.callback r.room r.size (f.errmsg, f.size)

  -- A message in a memory of bytes that has a wire format shorter than 2 ^ 64, the functions of the
  -- user writing what they are said to, and a fresh buffer stream within its size without room for
  -- the format: `pb_encode` fails with "stream full", and what was stored and counted is a front of
  -- the format, within the size.
  pub pb_encode-IsFull :
      (o : OStream)
      → o.callback ≡ buf_write_callback
      → o.bytes_written ≤ o.max_size
      → o.max_size < o.bytes_written + length bs
      → length bs < 2 ^ 64
      → IsFresh o
      → IsFull bs o (pb_encode env m depth links fields src o)
  pb_encode-IsFull o c w over l f =
      sends.overflows o c w over (omega (arith, f.size)) l (f.errmsg, f.size)

  -- A message in a memory of bytes that has a wire format shorter than 2 ^ 63, the functions of the
  -- user writing what they are said to: `pb_get_encoded_size` gives the size of a buffer that
  -- `pb_encode` then fills with exactly the format.
  pub pb_get_encoded_size-pb_encode :
      length bs < 2 ^ 63
      → ((t : OStream) × (pb_get_encoded_size env m depth links fields src ≡ ok (length bs) t))
        × (pb_encode env m depth links fields src (pb_ostream_from_buffer (length bs))
            ≡ ok tt (record {
              callback = buf_write_callback;
              state = bs;
              max_size = length bs;
              bytes_written = length bs;
              errmsg = none;
            }))
  unfolding pb_get_encoded_size pb_ostream_from_buffer
  pb_get_encoded_size-pb_encode l =
      let (t, sized, count) =
        sizing (pb_encode env m depth links fields src) bs sends (omega arith) in
      (
        (t, rw (sized) (ap (λ (n : ℕ). ok n t) count)),
        ground (
          arith,
          sends.writes (pb_ostream_from_buffer (length bs)) refl (omega arith) (omega arith)
              (refl, l),
        ),
      )

  -- A message in a memory of bytes that has a wire format shorter than 2 ^ 63, the functions of the
  -- user writing what they are said to: `pb_encode_delimited` stores the length of the format as a
  -- varint and then the format in a fresh buffer stream with room for both.
  pub pb_encode_delimited-message_bytes :
      (o : OStream)
      → length bs < 2 ^ 63
      → HasRoom (varint (length bs) ++ bs) o
      → IsFresh o
      → pb_encode_delimited env m depth links fields src o
        ≡ ok tt (stored (varint (length bs) ++ bs) o)
  unfolding pb_encode_delimited prefixed
  pb_encode_delimited-message_bytes o l r f =
      (submessage-Implements (pb_encode env m depth links fields src)
          (message_bytes env m user depth links fields src)
          (message-Implements env m user bytes faithful depth links fields src)
          (varint (length bs) ++ bs) (rw format (ground arith))).writes
        o r.callback r.room r.size (f.errmsg, f.size)

  -- A message in a memory of bytes that has a wire format, the functions of the user writing what
  -- they are said to: `pb_encode_nullterminated` stores the format and a byte 0 in a fresh buffer
  -- stream with room for both.
  pub pb_encode_nullterminated-message_bytes :
      (o : OStream)
      → HasRoom (bs ++ (0 ∷ [])) o
      → IsFresh o
      → pb_encode_nullterminated env m depth links fields src o ≡ ok tt (stored (bs ++ (0 ∷ [])) o)
  unfolding pb_encode_nullterminated
  pb_encode_nullterminated-message_bytes o r f =
      (seq-Emits sends (Emits-Sends (pb_write-Emits (0 ∷ [])))).writes o r.callback r.room r.size
        (f.errmsg, f.size)
