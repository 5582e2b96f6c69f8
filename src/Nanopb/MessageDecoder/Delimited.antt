-- ===== src/Nanopb/MessageDecoder/Delimited.antt =====
-- A message with its length in front: the stream is right behind it once it was decoded.
use app_card.Base.{ℕ, ◌+◌, ◌^◌, ◌≤◌, ◌<◌, ◌≡◌, refl, List, ◌++◌, length, ok, failed}
use app_card.Nanopb.Pb.{PbField}
use app_card.Nanopb.OStream.Varint.{varint}
use app_card.Nanopb.IStream.{IStream, buf_read_callback}
use app_card.Nanopb.IStream.Safety.{Follows}
use app_card.Nanopb.Substream.Resync.{substream, parent, substream_resync}
use app_card.Nanopb.Decoders.{Input, FieldDecoder}
use app_card.Nanopb.Runtime.{Runtime}
use app_card.Nanopb.DecodeField.{in_substream, close_with}
use app_card.Nanopb.MessageDecoder.{pb_decode, pb_decode_delimited}

-- The stream behind `bs`, with the message of the substream.
abbrev pub behind : List ℕ → List ℕ → IStream → IStream → IStream
behind bs rest s u = record (parent bs rest s) { state = rest; errmsg = u.errmsg }

-- A decoder that stands at a length-prefixed `bs` of a buffer stream.
pub record StandsAt (bs rest : List ℕ) (s : IStream) : Type 0 where
  pub short : length bs < 2 ^ 32
  pub callback : s.callback ≡ buf_read_callback
  pub state : s.state ≡ varint (length bs) ++ (bs ++ rest)
  pub holds : length (varint (length bs)) + length bs ≤ s.bytes_left

module _ (body : FieldDecoder) (bs rest : List ℕ) (s t : Input) (stands : StandsAt bs rest s.stream)
    (follows : Follows (substream bs rest s.stream) t.stream) where
  in_substream-ok :
      body (record s { stream = substream bs rest s.stream }) ≡ ok tt t
      → in_substream body s ≡ ok tt (record t { stream = behind bs rest s.stream t.stream })
  unfolding in_substream close_with
  in_substream-ok decoded =
      let (opened, closed) =
        substream_resync bs s.stream rest t.stream stands.short stands.callback stands.state
          stands.holds follows in
      rw (opened, decoded, closed) refl

  in_substream-failed :
      body (record s { stream = substream bs rest s.stream }) ≡ failed tt t
      → in_substream body s ≡ failed tt (record t { stream = behind bs rest s.stream t.stream })
  unfolding in_substream close_with
  in_substream-failed refused =
      let (opened, closed) =
        substream_resync bs s.stream rest t.stream stands.short stands.callback stands.state
          stands.holds follows in
      rw (opened, refused, closed) refl

-- On a buffer stream that stands at a message of less than 2 ^ 32 bytes with its length in front,
-- where `pb_decode` of the message's bytes alone returns and takes bytes off their front, however
-- many: `pb_decode_delimited` returns the same, with the same memory and message, and leaves the
-- stream right behind the message.
pub pb_decode_delimited-resync :
    (rt : Runtime) (depth links : ℕ) (fields : List PbField) (dest : ℕ) (bs rest : List ℕ)
    (s t : Input)
    → StandsAt bs rest s.stream
    → Follows (substream bs rest s.stream) t.stream
    → (pb_decode rt depth links fields dest (record s { stream = substream bs rest s.stream })
          ≡ ok tt t
        → pb_decode_delimited rt depth links fields dest s
          ≡ ok tt (record t { stream = behind bs rest s.stream t.stream }))
      × (pb_decode rt depth links fields dest (record s { stream = substream bs rest s.stream })
            ≡ failed tt t
          → pb_decode_delimited rt depth links fields dest s
            ≡ failed tt (record t { stream = behind bs rest s.stream t.stream }))
unfolding pb_decode_delimited
pb_decode_delimited-resync rt depth links fields dest bs rest s t stands follows = (
  in_substream-ok (pb_decode rt depth links fields dest) bs rest s t stands follows,
  in_substream-failed (pb_decode rt depth links fields dest) bs rest s t stands follows,
)
