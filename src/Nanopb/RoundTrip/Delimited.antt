-- ===== src/Nanopb/RoundTrip/Delimited.antt =====
-- A message of required numbers with its length in front is decoded as it was.
use app_card.Base.{
  ℕ, suc, ◌+◌, ◌-◌, ◌^◌, ◌<◌, ◌≡◌, refl, ap, sym, List, [], ◌∷◌, ◌++◌, some, ok, length, arith,
  subst,
}
use app_card.Nanopb.Pb.{PbField}
use app_card.Nanopb.Memory.{Memory}
use app_card.Nanopb.OStream.{OStream}
use app_card.Nanopb.OStream.Contract.{stored}
use app_card.Nanopb.OStream.Varint.{varint}
use app_card.Nanopb.IStream.{IStream}
use app_card.Nanopb.IStream.Safety.{Follows}
use app_card.Nanopb.Substream.Resync.{substream}
use app_card.Nanopb.Environment.{Environment}
use app_card.Nanopb.Encoders.Emit.{IsBytes}
use app_card.Nanopb.Decoders.{Input}
use app_card.Nanopb.Runtime.{Runtime}
use app_card.Nanopb.MessageEncoder.{pb_encode_delimited}
use app_card.Nanopb.MessageEncoder.Wire.{UserWire, message_bytes}
use app_card.Nanopb.MessageEncoder.Outcomes.{IsFresh, pb_encode_delimited-message_bytes}
use app_card.Nanopb.MessageDecoder.{pb_decode, pb_decode_delimited}
use app_card.Nanopb.MessageDecoder.Delimited.{StandsAt, behind, pb_decode_delimited-resync}
use app_card.Nanopb.RoundTrip.{HasRoom}
use app_card.Nanopb.RoundTrip.Layout.{span}
use app_card.Nanopb.RoundTrip.Loop.{HoldsJust}
use app_card.Nanopb.RoundTrip.Start.{IsNumbers}
use app_card.Nanopb.RoundTrip.Message.{
  Copied, formats, no_callbacks, no_callbacks-IsFaithful, pb_decode-Copied,
}

-- The bytes left behind a message with its length in front.
abbrev pub left_behind : List ℕ → IStream → ℕ
left_behind bs s = s.bytes_left - (length (varint (length bs)) + length bs)

-- What `pb_decode` copies from a substream, `pb_decode_delimited` copies from the stream.
delimited-Copied :
    (rt : Runtime) (m : Memory) (fs : List PbField) (depth links : ℕ) (fields : List PbField)
    (src dest : ℕ) (bs rest : List ℕ) (s : Input)
    → StandsAt bs rest s.stream
    → Copied m fs src dest rest 0
        (record s { stream = substream bs rest s.stream })
        (pb_decode rt depth links fields dest (record s { stream = substream bs rest s.stream }))
    → Copied m fs src dest rest
        (left_behind bs s.stream)
        s
        (pb_decode_delimited rt depth links fields dest s)
delimited-Copied rt m fs depth links fields src dest bs rest s stands c =
    let follows : Follows (substream bs rest s.stream) c.to.stream = record {
      used = bs;
      callback = ap (λ (t : IStream). t.callback) c.stream;
      state = ap (λ (t : IStream). bs ++ t.state) (sym c.stream);
      bytes_left = omega (arith, ap (λ (t : IStream). t.bytes_left) c.stream);
    } in
    record {
      to = let t = c.to in record t { stream = behind bs rest s.stream t.stream };
      result =
          (pb_decode_delimited-resync rt depth links fields dest bs rest s (c.to) stands follows).0
            c.result;
      stream = ap (behind bs rest s.stream) c.stream;
      agree = c.agree;
    }

-- A message of at most 64 required numbers as in `pb_decode-pb_encode`, with a wire format `bs` of
-- less than 2 ^ 32 bytes; a fresh buffer stream with room for the length of `bs` as a varint and
-- `bs`; and a buffer stream that stands at these two, whatever else is in its buffer, and any memory
-- with room for the structure at `dest`. `pb_encode_delimited` stores the two, and
-- `pb_decode_delimited` takes just them off the stream and succeeds, and each field of the structure
-- at `dest` then holds the number that it holds in the structure at `src`.
pub pb_decode_delimited-pb_encode_delimited :
    (rt : Runtime) (env : Environment) (m : Memory) (user : UserWire) (f : PbField)
    (back : List PbField) (end : PbField) (depth links src dest : ℕ) (bs rest : List ℕ)
    (o : OStream) (s : Input)
    → IsBytes m
    → IsNumbers f back end
    → 0 < src
    → src + span (f ∷ back) < 2 ^ 64
    → dest + span (f ∷ back) < 2 ^ 64
    → message_bytes env m user (suc depth) links (f ∷ (back ++ (end ∷ []))) src ≡ some bs
    → HasRoom (varint (length bs) ++ bs) o
    → IsFresh o
    → StandsAt bs rest s.stream
    → (pb_encode_delimited env m (suc depth) links (f ∷ (back ++ (end ∷ []))) src o
        ≡ ok tt (stored (varint (length bs) ++ bs) o))
      × Copied m
          (f ∷ back)
          src
          dest
          rest
          (left_behind bs s.stream)
          s
          (pb_decode_delimited rt (suc depth) links (f ∷ (back ++ (end ∷ []))) dest s)
pb_decode_delimited-pb_encode_delimited rt env m user f back end depth links src dest bs rest o s
      is_bytes message pos fits fits' format room fresh stands =
    let (same, plain) =
      formats rt env m is_bytes f back end message depth links src user bs pos fits format in
    let sub : Input = record s { stream = substream bs rest s.stream } in
    let holds : HoldsJust bs rest sub.stream = record {
      callback = stands.callback;
      state = refl;
      bytes_left = refl;
    } in
    let fields = f ∷ (back ++ (end ∷ [])) in
    (
      pb_encode_delimited-message_bytes env m no_callbacks (suc depth) links fields src bs is_bytes
          (no_callbacks-IsFaithful env) plain o (omega (arith, stands.short)) room fresh,
      delimited-Copied rt m (f ∷ back) (suc depth) links fields src dest bs rest s stands (
          pb_decode-Copied rt env m is_bytes f back end message depth links src dest sub rest fits'
            (subst (λ (x : List ℕ). HoldsJust x rest sub.stream) (sym same) holds)),
    )
