-- ===== src/Nanopb/RoundTrip/Message.antt =====
-- A message of required numbers is decoded from its wire format as it was.
use app_card.Base.{
  ℕ, suc, ◌+◌, ◌^◌, ◌<◌, ◌≡◌, ◌≢◌, length, refl, ◌∙◌, ap, sym, false, inl, List, [], ◌∷◌, ◌++◌,
  some, none, ◌==◌, Run, ok, All, arith, subst,
}
use mathlib.Core.Option.{some-injective}
use app_card.Nanopb.Pb.{PbField}
use app_card.Nanopb.Memory.{Memory, store}
use app_card.Nanopb.OStream.{OStream}
use app_card.Nanopb.OStream.Contract.{stored}
use app_card.Nanopb.FieldIter.{pb_field_iter_begin}
use app_card.Nanopb.Environment.{Environment}
use app_card.Nanopb.Encoders.Emit.{IsBytes}
use app_card.Nanopb.Decoders.{Input}
use app_card.Nanopb.Runtime.{Runtime}
use app_card.Nanopb.SetDefaults.Returns.{IsMessage, Nests, pb_message_set_to_defaults-Returns}
use app_card.Nanopb.MessageEncoder.{pb_encode}
use app_card.Nanopb.MessageEncoder.Wire.{UserWire, message_bytes}
use app_card.Nanopb.MessageEncoder.Fields.{IsFaithful}
use app_card.Nanopb.MessageEncoder.Outcomes.{IsFresh, pb_encode-message_bytes}
use app_card.Nanopb.RoundTrip.Finish.{HasSeen, finish-HasSeen}
use app_card.Nanopb.MessageDecoder.{Progress, finish, init_and_decode, pb_decode_noinit, pb_decode}
use app_card.Nanopb.RoundTrip.{HasRoom}
use app_card.Nanopb.RoundTrip.Scalar.{IsNumber}
use app_card.Nanopb.RoundTrip.Layout.{span, Agree, flat}
use app_card.Nanopb.RoundTrip.Loop.{Filled, HoldsJust}
use app_card.Nanopb.RoundTrip.Start.{IsNumbers, wire, starts}
use app_card.Nanopb.RoundTrip.Format.{number_type, message_bytes-flat}

-- A success that took the input up to `rest`, with so many bytes left, and left a message at `dest`
-- with the numbers of the one at `src` in `m`.
pub record Copied (m : Memory) (fs : List PbField) (src dest : ℕ) (rest : List ℕ) (left : ℕ)
    (s : Input) (r : Run Input (Unit {0}) (Unit {0})) : Type 0 where
  pub to : Input
  pub result : r ≡ ok tt to
  pub stream : to.stream ≡ (let t = s.stream in record t { state = rest; bytes_left = left })
  pub agree : Agree m to.memory fs src dest

module _ (rt : Runtime) (env : Environment) (m : Memory) (is_bytes : IsBytes m) (f : PbField)
    (back : List PbField) (end : PbField) (message : IsNumbers f back end) where
  abbrev table : List PbField
  table = f ∷ (back ++ (end ∷ []))

  all_seen :
      (depth links at b : ℕ) (front : List PbField) (e : PbField) (p : Progress) (s : Input)
      → HasSeen front e [] (end ∷ []) f b p
      → IsNumber e
      → e.tag ≢ 0
      → length front ≡ length back
      → finish rt
          (init_and_decode rt (pb_decode_noinit rt depth links) depth links)
          (pb_decode_noinit rt depth links)
          (suc depth)
          links
          at
          p
          s
        ≡ ok tt s
  all_seen depth links at b front e p s h n tagged count =
      finish-HasSeen rt (init_and_decode rt (pb_decode_noinit rt depth links) depth links)
        (pb_decode_noinit rt depth links) (suc depth) links at b front [] e end f p s h (n, tt)
        (record { tags = (tagged, tt); last = message.is_table.last }) (message.is_table.tags.0)
        (omega (arith, count, message.few)) refl

  noinit_fills :
      (depth links src dest : ℕ) (s : Input) (rest : List ℕ)
      → dest + span (f ∷ back) < 2 ^ 64
      → HoldsJust (wire rt env m is_bytes f back (message.numbers) src) rest s.stream
      → Filled
          (ok tt)
          m
          (f ∷ back)
          src
          dest
          rest
          (record s { memory = store 4 0 s.memory (rt.fixed_count_at depth) })
          (pb_decode_noinit rt (suc depth) links table dest s)
  unfolding pb_decode_noinit pb_field_iter_begin
  noinit_fills depth links src dest s rest fits holds =
      let full : (f.tag == 0) ≡ false = ground (arith, message.is_table.tags.0) in
      let s' : Input = record s { memory = store 4 0 s.memory (rt.fixed_count_at depth) } in
      rw full (
        starts rt env m is_bytes f back (message.numbers)
          (init_and_decode rt (pb_decode_noinit rt depth links) depth links)
          (pb_decode_noinit rt depth links) (suc depth) links (rt.fixed_count_at depth) (end ∷ [])
          (ok tt) (all_seen depth links (rt.fixed_count_at depth)) src dest s' rest
          (s.stream.bytes_left + 1) (message.is_table.tags) (message.differ) (message.few) fits
          holds (omega arith))

  each-Nests : (depth : ℕ) (fs : List PbField) → All IsNumber fs → All (Nests rt (suc depth)) fs
  each-Nests depth [] h = tt
  each-Nests depth (g ∷ fs) h =
      let (no_extension, no_submessage) = number_type g h.0.number in
      ((no_extension, inl no_submessage), each-Nests depth fs h.1)

  pub is_message : (depth : ℕ) → IsMessage (Nests rt (suc depth)) table
  is_message depth = record {
    fields = f ∷ back;
    end = end;
    whole = refl;
    is_table = message.is_table;
    each = each-Nests depth (f ∷ back) (message.numbers);
  }

  pub pb_decode-Copied :
      (depth links src dest : ℕ) (s : Input) (rest : List ℕ)
      → dest + span (f ∷ back) < 2 ^ 64
      → HoldsJust (wire rt env m is_bytes f back (message.numbers) src) rest s.stream
      → Copied m (f ∷ back) src dest rest 0 s (pb_decode rt (suc depth) links table dest s)
  unfolding pb_decode init_and_decode
  pb_decode-Copied depth links src dest s rest fits holds =
      let (m', defaults) =
        pb_message_set_to_defaults-Returns rt (suc depth) links table dest s.memory
          (is_message depth) in
      let filled = noinit_fills depth links src dest (record s { memory = m' }) rest fits holds in
      record {
        to = filled.to;
        result = rw (defaults, filled.result) refl;
        stream = filled.stream;
        agree = filled.agree;
      }

abbrev pub no_callbacks : UserWire
no_callbacks = record {
  callback = λ function field arg. none;
  extension = λ function extension. none;
}

pub no_callbacks-IsFaithful : (env : Environment) → IsFaithful env no_callbacks
no_callbacks-IsFaithful env = record {
  callback = λ function field arg bs e. absurd (ground (arith, e));
  extension = λ function extension bs e. absurd (ground (arith, e));
}

-- The wire format of the numbers does not depend on the functions of the user.
pub formats :
    (rt : Runtime) (env : Environment) (m : Memory) (is_bytes : IsBytes m) (f : PbField)
    (back : List PbField) (end : PbField) (message : IsNumbers f back end) (depth links src : ℕ)
    (user : UserWire) (bs : List ℕ)
    → 0 < src
    → src + span (f ∷ back) < 2 ^ 64
    → message_bytes env m user (suc depth) links (f ∷ (back ++ (end ∷ []))) src ≡ some bs
    → (wire rt env m is_bytes f back (message.numbers) src ≡ bs)
      × (message_bytes env m no_callbacks (suc depth) links (f ∷ (back ++ (end ∷ []))) src
          ≡ some bs)
formats rt env m is_bytes f back end message depth links src user bs pos fits format =
    let flat_format : (u : UserWire)
        → message_bytes env m u (suc depth) links (f ∷ (back ++ (end ∷ []))) src
          ≡ some (flat rt env m is_bytes (f ∷ back) (message.numbers) src) =
      λ u.
        message_bytes-flat rt env m is_bytes u depth links f back end (message.numbers) src
          (message.is_table) pos fits in
    let same : flat rt env m is_bytes (f ∷ back) (message.numbers) src ≡ bs =
      some-injective _ _ (sym (flat_format user) ∙ format) in
    (same, flat_format no_callbacks ∙ ap some same)

-- A message of at most 64 required numbers (varint, unsigned, zigzag, fixed32 and fixed64 fields, each
-- with its place in the structure and a tag below 2 ^ 29, no two next to each other with the same
-- tag) at an address that is not NULL in a memory of bytes, and its wire format `bs`; a fresh buffer
-- stream with room for `bs`; and a buffer stream with just `bs` left to it, whatever else is in its
-- buffer, and any memory with room for the structure at `dest`. `pb_encode` stores `bs`, and
-- `pb_decode` takes `bs` off the stream and succeeds, and each field of the structure at `dest`
-- then holds the number that it holds in the structure at `src`.
pub pb_decode-pb_encode :
    (rt : Runtime) (env : Environment) (m : Memory) (user : UserWire) (f : PbField)
    (back : List PbField) (end : PbField) (depth links src dest : ℕ) (bs rest : List ℕ)
    (o : OStream) (s : Input)
    → IsBytes m
    → IsNumbers f back end
    → 0 < src
    → src + span (f ∷ back) < 2 ^ 64
    → dest + span (f ∷ back) < 2 ^ 64
    → message_bytes env m user (suc depth) links (f ∷ (back ++ (end ∷ []))) src ≡ some bs
    → HasRoom bs o
    → IsFresh o
    → HoldsJust bs rest s.stream
    → (pb_encode env m (suc depth) links (f ∷ (back ++ (end ∷ []))) src o ≡ ok tt (stored bs o))
      × Copied m
          (f ∷ back)
          src
          dest
          rest
          0
          s
          (pb_decode rt (suc depth) links (f ∷ (back ++ (end ∷ []))) dest s)
pb_decode-pb_encode rt env m user f back end depth links src dest bs rest o s is_bytes message pos
      fits fits' format room fresh holds =
    let (same, plain) =
      formats rt env m is_bytes f back end message depth links src user bs pos fits format in
    (
      pb_encode-message_bytes env m no_callbacks (suc depth) links (f ∷ (back ++ (end ∷ []))) src bs
          is_bytes (no_callbacks-IsFaithful env) plain o room fresh,
      pb_decode-Copied rt env m is_bytes f back end message depth links src dest s rest fits'
          (subst (λ (x : List ℕ). HoldsJust x rest s.stream) (sym same) holds),
    )
