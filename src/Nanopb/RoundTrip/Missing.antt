-- ===== src/Nanopb/RoundTrip/Missing.antt =====
-- A message that lacks the last required fields of its table is refused.
use app_card.Base.{
  ℕ, suc, ◌+◌, ◌^◌, ◌<◌, ◌≡◌, ◌≢◌, refl, ap, sym, List, [], ◌∷◌, ◌++◌, append_assoc, length,
  length-append, false, some, ◌==◌, Run, failed, All, arith, subst,
}
use app_card.Nanopb.Pb.{PbField, missing_required_field, set_error}
use app_card.Nanopb.Memory.{Memory, store}
use app_card.Nanopb.IStream.{IStream}
use app_card.Nanopb.FieldIter.{pb_field_iter_begin}
use app_card.Nanopb.FieldIter.Find.{All-front}
use app_card.Nanopb.Environment.{Environment}
use app_card.Nanopb.Encoders.Emit.{IsBytes}
use app_card.Nanopb.Decoders.{Input}
use app_card.Nanopb.Runtime.{Runtime, fail}
use app_card.Nanopb.SetDefaults.Returns.{pb_message_set_to_defaults-Returns}
use app_card.Nanopb.Release.Returns.{pb_release-Returns}
use app_card.Nanopb.MessageEncoder.Wire.{UserWire, message_bytes}
use app_card.Nanopb.MessageDecoder.{Progress, finish, init_and_decode, pb_decode_noinit, pb_decode}
use app_card.Nanopb.RoundTrip.Scalar.{IsNumber}
use app_card.Nanopb.RoundTrip.Layout.{span, Differ}
use app_card.Nanopb.RoundTrip.Finish.{HasSeen, finish-misses}
use app_card.Nanopb.RoundTrip.Loop.{Filled, HoldsJust}
use app_card.Nanopb.RoundTrip.Start.{IsNumbers, wire, starts}
use app_card.Nanopb.RoundTrip.Message.{formats, is_message}

-- A failure for a missing field that took the input up to `rest`.
pub record Misses (rest : List ℕ) (s : Input) (r : Run Input (Unit {0}) (Unit {0})) : Type 0 where
  pub to : Input
  pub result : r ≡ failed tt to
  pub stream : to.stream ≡ (
      let t = s.stream in
      record t { state = rest; bytes_left = 0; errmsg = set_error missing_required_field t.errmsg })

Differ-front : (f : PbField) (kept more : List PbField) → Differ f (kept ++ more) → Differ f kept
Differ-front f [] more h = tt
Differ-front f (e ∷ kept) more h = (h.0, Differ-front e kept more h.1)

-- The fields `f` and `kept` of a message, and those that are missing.
module _ (f : PbField) (kept : List PbField) (g : PbField) (lost : List PbField) (end : PbField)
    (message : IsNumbers f (kept ++ (g ∷ lost)) end) where
  numbers_kept : All IsNumber kept
  numbers_kept = (All-front IsNumber kept (g ∷ lost) (message.numbers.1)).0

  tags_kept : All (λ (e : PbField). e.tag ≢ 0) kept
  tags_kept = (All-front (λ (e : PbField). e.tag ≢ 0) kept (g ∷ lost) (message.is_table.tags.1)).0

  kept-IsNumbers : IsNumbers f kept end
  kept-IsNumbers = record {
    numbers = (message.numbers.0, numbers_kept);
    is_table = record { tags = (message.is_table.tags.0, tags_kept); last = message.is_table.last };
    differ = Differ-front f kept (g ∷ lost) (message.differ);
    few = omega (arith, message.few, length-append kept (g ∷ lost));
  }

  module _ (rt : Runtime) (env : Environment) (m : Memory) (is_bytes : IsBytes m)
      (depth links : ℕ) where
    abbrev whole_table : List PbField
    whole_table = f ∷ ((kept ++ (g ∷ lost)) ++ (end ∷ []))

    not_all :
        (at b : ℕ) (front : List PbField) (e : PbField) (p : Progress) (s : Input)
        → HasSeen front e [] ((g ∷ lost) ++ (end ∷ [])) f b p
        → IsNumber e
        → e.tag ≢ 0
        → length front ≡ length kept
        → finish rt
            (init_and_decode rt (pb_decode_noinit rt depth links) depth links)
            (pb_decode_noinit rt depth links)
            (suc depth)
            links
            at
            p
            s
          ≡ fail missing_required_field s
    not_all at b front e p s h n tagged count =
        finish-misses rt (init_and_decode rt (pb_decode_noinit rt depth links) depth links)
          (pb_decode_noinit rt depth links) (suc depth) links at b front (g ∷ lost) e end f p s h
          (n, (All-front IsNumber kept (g ∷ lost) (message.numbers.1)).1)
          (record {
            tags = (
              tagged,
              (All-front (λ (e : PbField). e.tag ≢ 0) kept (g ∷ lost) (message.is_table.tags.1)).1,
            );
            last = message.is_table.last;
          })
          (message.is_table.tags.0)
          (omega (arith, count, message.few, length-append kept (g ∷ lost))) (omega arith)

    noinit_misses :
        (src dest : ℕ) (s : Input) (rest : List ℕ)
        → dest + span (f ∷ kept) < 2 ^ 64
        → HoldsJust (wire rt env m is_bytes f kept (kept-IsNumbers.numbers) src) rest s.stream
        → Filled
            (fail missing_required_field)
            m
            (f ∷ kept)
            src
            dest
            rest
            (record s { memory = store 4 0 s.memory (rt.fixed_count_at depth) })
            (pb_decode_noinit rt (suc depth) links whole_table dest s)
    unfolding pb_decode_noinit pb_field_iter_begin
    noinit_misses src dest s rest fits holds =
        let full : (f.tag == 0) ≡ false = ground (arith, message.is_table.tags.0) in
        let s' : Input = record s { memory = store 4 0 s.memory (rt.fixed_count_at depth) } in
        rw (append_assoc kept (g ∷ lost) (end ∷ []), full)
          (starts rt env m is_bytes f kept (kept-IsNumbers.numbers)
            (init_and_decode rt (pb_decode_noinit rt depth links) depth links)
            (pb_decode_noinit rt depth links) (suc depth) links (rt.fixed_count_at depth)
            ((g ∷ lost) ++ (end ∷ [])) (fail missing_required_field)
            (not_all (rt.fixed_count_at depth)) src dest s' rest (s.stream.bytes_left + 1)
            (kept-IsNumbers.is_table.tags) (kept-IsNumbers.differ) (kept-IsNumbers.few) fits holds
            (omega arith))

    table-Misses :
        (src dest : ℕ) (s : Input) (rest : List ℕ)
        → dest + span (f ∷ kept) < 2 ^ 64
        → HoldsJust (wire rt env m is_bytes f kept (kept-IsNumbers.numbers) src) rest s.stream
        → Misses rest s (pb_decode rt (suc depth) links whole_table dest s)
    unfolding pb_decode init_and_decode
    table-Misses src dest s rest fits holds =
        let inside = is_message rt env m is_bytes f (kept ++ (g ∷ lost)) end message depth in
        let (m', defaults) =
          pb_message_set_to_defaults-Returns rt (suc depth) links whole_table dest s.memory
            inside in
        let filled = noinit_misses src dest (record s { memory = m' }) rest fits holds in
        let (m'', releases) =
          pb_release-Returns rt (suc depth) links whole_table dest inside filled.to.memory in
        record {
          to =
              let u = filled.to.stream in
              record {
                stream = record u { errmsg = set_error missing_required_field u.errmsg };
                memory = m'';
              };
          result = rw (defaults, filled.result, releases) refl;
          stream =
              ap (λ (u : IStream). record u { errmsg = set_error missing_required_field u.errmsg })
                filled.stream;
        }

-- The table of a message of at most 64 required numbers, as in `pb_decode-pb_encode`, and the wire
-- format `bs` of a message that has only its first fields: `f` and `kept`, but not `g` and `lost`.
-- On a buffer stream with just `bs` left to it, whatever else is in its buffer, and any memory with
-- room for the fields at `dest`, `pb_decode` takes `bs` off the stream and fails with "missing
-- required field", unless the stream has an error message from before, which it keeps.
pub pb_decode-Misses :
    (rt : Runtime) (env : Environment) (m : Memory) (user : UserWire) (f : PbField)
    (kept : List PbField) (g : PbField) (lost : List PbField) (end : PbField)
    (depth links src dest : ℕ) (bs rest : List ℕ) (s : Input)
    → IsBytes m
    → IsNumbers f (kept ++ (g ∷ lost)) end
    → 0 < src
    → src + span (f ∷ kept) < 2 ^ 64
    → dest + span (f ∷ kept) < 2 ^ 64
    → message_bytes env m user (suc depth) links (f ∷ (kept ++ (end ∷ []))) src ≡ some bs
    → HoldsJust bs rest s.stream
    → Misses rest s
        (pb_decode rt (suc depth) links (f ∷ ((kept ++ (g ∷ lost)) ++ (end ∷ []))) dest s)
pb_decode-Misses rt env m user f kept g lost end depth links src dest bs rest s is_bytes message pos
      fits fits' format holds =
    let (same, plain) =
      formats rt env m is_bytes f kept end (kept-IsNumbers f kept g lost end message) depth links
        src user bs pos fits format in
    table-Misses f kept g lost end message rt env m is_bytes depth links src dest s rest fits'
      (subst (λ (x : List ℕ). HoldsJust x rest s.stream) (sym same) holds)
