-- ===== src/Nanopb/MessageDecoder/Ends.antt =====
-- The checks behind the last field of a message return.
use app_card.Base.{
  ℕ, zero, suc, ◌+◌, ◌<◌, ◌≡◌, ◌≢◌, ap, not, ◌&&◌, List, [], ◌∷◌, ltb, length, length-append,
  get_elem?, Run, ok, failed, fault, stuck, All, arith,
}
use app_card.Nanopb.Pb.{PbField, wrong_size_for_fixed_count_field, missing_required_field}
use app_card.Nanopb.FieldIter.{FieldIter, pb_field_iter_next}
use app_card.Nanopb.FieldIter.Step.{IsTable}
use app_card.Nanopb.FieldIter.Inside.{IsAtField, field_there, Steps, pb_field_iter_next-Steps}
use app_card.Nanopb.Decoders.{Input, FieldDecoder}
use app_card.Nanopb.Decoders.Halts.{Halts, Safe, Any, Safe-if, Halts-if, Safe-write, Safe-error}
use app_card.Nanopb.Runtime.{Runtime, on_result}
use app_card.Nanopb.DecodeField.{MessageDecoder}
use app_card.Nanopb.DecodeExtension.Decodable.{All-map}
use app_card.Nanopb.DecodeExtension.Fields.{with_field-Halts}
use app_card.Nanopb.MessageDecoder.{
  End, Progress, Seen, seek_end, required_count, check_required, all_seen, is_short, finish,
}

-- A step of the iteration whose result decides.
stepped :
    (fs : List PbField) (end : PbField) (pos : ℕ) (s : Input)
    (r : Run FieldIter (Unit {0}) (Unit {0})) (k l : FieldIter → FieldDecoder)
    → Steps fs end pos r
    → ((to : FieldIter) → IsAtField fs end to → to.pos ≡ pos + 1 → Halts Any s.stream (k to s))
    → ((to : FieldIter) → IsAtField fs end to → Halts Any s.stream (l to s))
    → Halts Any s.stream (on_result r k l s)
stepped fs end pos s (ok a to) k l h next over = next to h.0 h.1
stepped fs end pos s (failed e to) k l h next over = over to h
stepped fs end pos s fault k l h next over = h
stepped fs end pos s stuck k l h next over = h

module _ (fs : List PbField) (end : PbField) (t : IsTable fs end) where
  any_field : All (λ f. Unit {0}) fs
  any_field = All-map (λ f. f.tag ≢ 0) (λ f. Unit {0}) fs (λ f h. tt) t.tags

  seek_end-Safe :
      (k : End → FieldDecoder) (fuel : ℕ) (iter : FieldIter)
      → ((e : End) → IsAtField fs end e.iter → Safe Any (k e))
      → IsAtField fs end iter
      → length fs < iter.pos + fuel
      → Safe Any (seek_end k fuel iter)
  unfolding seek_end
  seek_end-Safe k zero iter h at enough s input = absurd (omega (arith, at.inside))
  seek_end-Safe k (suc fuel) iter h at enough s input =
      let c = field_there (λ f. Unit {0}) iter at any_field in
      with_field-Halts Any (get_elem? iter.start iter.pos) c.field _ s c.current (
        stepped fs end iter.pos s (pb_field_iter_next iter) _ _
          (pb_field_iter_next-Steps fs end iter t at)
          (λ to at' moved. seek_end-Safe k fuel to h at' (omega (arith, moved)) s input)
          λ to at'.
            h
              (record {
                iter = to;
                req_field_count = iter.required_field_index;
                last_type = c.field.type;
              })
              at' s input)

  check_required-Safe :
      (seen : Seen) (e : End) → IsAtField fs end e.iter → Safe Any (check_required seen e)
  unfolding check_required
  check_required-Safe seen e at s input =
      let c = field_there (λ f. Unit {0}) e.iter at any_field in
      with_field-Halts Any (get_elem? e.iter.start e.iter.pos) c.field _ s c.current (
        Halts-if Any s
          (ltb 0 (required_count e c.field) && not (all_seen (required_count e c.field) seen)) _ _
          (λ _. Safe-error missing_required_field s input) λ _. Safe-write (λ m. m) s input)

  pub finish-Safe :
      (rt : Runtime) (message message_noinit : MessageDecoder) (depth links at : ℕ) (p : Progress)
      → IsAtField fs end p.iter
      → Safe Any (finish rt message message_noinit depth links at p)
  unfolding finish
  finish-Safe rt message message_noinit depth links at p here s =
      Safe-if Any (is_short p.fixed_count_field p.iter at s) _ _
        (λ _. Safe-error wrong_size_for_fixed_count_field)
        (λ _.
          seek_end-Safe (check_required p.seen) (length p.iter.start) p.iter
            (λ e here'. check_required-Safe p.seen e here') here
            (omega (arith, ap length (here.table), length-append fs (end ∷ []), here.inside)))
        s
