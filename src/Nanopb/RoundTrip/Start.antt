-- ===== src/Nanopb/RoundTrip/Start.antt =====
-- The loop over the wire format of a message of required numbers, from the start of its table.
use app_card.Base.{
  ℕ, zero, suc, ◌+◌, ◌^◌, ◌<◌, ◌≡◌, ◌≢◌, refl, ◌∙◌, List, [], ◌∷◌, ◌++◌, append_assoc, length,
  length-append, All, arith,
}
use app_card.Nanopb.Pb.{PbField}
use app_card.Nanopb.Memory.{Memory, load}
use app_card.Nanopb.FieldIter.{begun}
use app_card.Nanopb.FieldIter.Step.{IsTable}
use app_card.Nanopb.Environment.{Environment}
use app_card.Nanopb.Encoders.Emit.{IsBytes}
use app_card.Nanopb.Decoders.{Input, FieldDecoder}
use app_card.Nanopb.Runtime.{Runtime}
use app_card.Nanopb.DecodeField.{MessageDecoder}
use app_card.Nanopb.MessageDecoder.{Progress, at_start, finish, decode_loop}
use app_card.Nanopb.MessageDecoder.Words.{marked}
use app_card.Nanopb.RoundTrip.Scalar.{IsNumber}
use app_card.Nanopb.RoundTrip.Round.{noted}
use app_card.Nanopb.RoundTrip.Layout.{span, Differ, field_wire, flat, field_wire-length}
use app_card.Nanopb.RoundTrip.Takes.{stored_at, decode_round-takes, find_current}
use app_card.Nanopb.RoundTrip.Finish.{HasSeen}
use app_card.Nanopb.RoundTrip.Loop.{Filled, HoldsJust, noted_seen, fills_more}
use app_card.Nanopb.RoundTrip.Fills.{loop-goes_on, loop-fills}

-- The table of a message of at most 64 required numbers, no two of which that are next to each
-- other have the same tag.
pub record IsNumbers (f : PbField) (back : List PbField) (end : PbField) : Type 0 where
  pub numbers : All IsNumber (f ∷ back)
  pub is_table : IsTable (f ∷ back) end
  pub differ : Differ f back
  pub few : length back < 64

module _ (rt : Runtime) (env : Environment) (m : Memory) (is_bytes : IsBytes m) (f : PbField)
    (back : List PbField) (numbers : All IsNumber (f ∷ back)) where
  abbrev pub wire : ℕ → List ℕ
  wire src = flat rt env m is_bytes (f ∷ back) numbers src

  -- The loop from the start of the table, over the wire format of its fields but those of `behind`;
  -- `v` is the outcome of the checks after them.
  pub starts :
      (decode noinit : MessageDecoder) (depth links at : ℕ) (behind : List PbField)
      (v : FieldDecoder)
      (ends : (b : ℕ) (front : List PbField) (e : PbField) (p : Progress) (s : Input)
        → HasSeen front e [] behind f b p
        → IsNumber e
        → e.tag ≢ 0
        → length front ≡ length back
        → finish rt decode noinit depth links at p s ≡ v s)
      (src dest : ℕ) (s : Input) (rest : List ℕ) (fuel : ℕ)
      → All (λ (e : PbField). e.tag ≢ 0) (f ∷ back)
      → Differ f back
      → length back < 64
      → dest + span (f ∷ back) < 2 ^ 64
      → HoldsJust (wire src) rest s.stream
      → s.stream.bytes_left < fuel
      → Filled v m (f ∷ back) src dest rest s (
          decode_loop rt decode noinit depth links at fuel
            (at_start (begun (f ∷ (back ++ behind)) dest f))
            s)
  starts decode noinit depth links at behind v ends src dest s rest zero t d few fits holds enough =
      absurd (omega arith)
  starts decode noinit depth links at behind v ends src dest s rest (suc fuel) t d few fits holds
        enough =
      let n = numbers.0 in
      let iter = begun (f ∷ (back ++ behind)) dest f in
      let bs = field_wire rt env m is_bytes f n src in
      let more = flat rt env m is_bytes back numbers.1 (src + f.data_offset + f.data_size) in
      let number = load f.data_size m (src + f.data_offset) in
      let place : iter.p_data ≡ dest + f.data_offset = omega (arith, fits) in
      let size = length-append bs more in
      let left = holds.bytes_left in
      let some_byte = field_wire-length rt env m is_bytes f n src in
      let found = find_current f iter (length (back ++ behind)) n refl refl in
      let round =
        decode_round-takes rt env m is_bytes decode noinit depth links at f n src (at_start iter)
          iter s (more ++ rest) t.0 refl found
          (record {
            callback = holds.callback;
            state = holds.state ∙ append_assoc bs more rest;
            left = omega (arith, left, size);
          }) in
      fills_more rt env m is_bytes decode noinit depth links at behind f v f back src dest bs
        (more ++ rest) rest s iter.p_data _ _ place
        (loop-goes_on rt env m is_bytes decode noinit depth links at behind f v (length back) few
          ends fuel (at_start iter) _ s _ (ground (arith, left, size, some_byte)) round)
        (loop-fills rt env m is_bytes decode noinit depth links at behind f v (length back) few ends
          back [] f numbers.1 (src + f.data_offset + f.data_size)
          (dest + f.data_offset + f.data_size) (noted f iter (at_start iter))
          (stored_at f number bs (more ++ rest) s iter.p_data) rest fuel
          (record {
            table = refl;
            pos = refl;
            data_end = omega (arith, place);
            index = refl;
            seen = noted_seen 0 f iter (at_start iter) n refl (omega arith) (unfold marked in refl);
            no_count = refl;
            begins = refl;
          })
          n t d (omega (arith, fits)) (omega arith)
          (record {
            callback = holds.callback;
            state = refl;
            bytes_left = omega (arith, left, size);
          })
          (omega (arith, left, size, some_byte, enough)))
