-- ===== src/Nanopb/RoundTrip/Round.antt =====
-- A round of `pb_decode_noinit` that stores a number.
use app_card.Base.{ℕ, ◌≡◌, refl, List, get_elem?, some, ok}
use app_card.Nanopb.Pb.{PbField, ltype}
use app_card.Nanopb.IStream.{IStream, Tag, pb_decode_tag}
use app_card.Nanopb.FieldIter.{FieldIter, pb_field_iter_find}
use app_card.Nanopb.Decoders.{Input, FieldDecoder}
use app_card.Nanopb.Runtime.{Runtime, Effect}
use app_card.Nanopb.SetDefaults.{pb_message_set_to_defaults}
use app_card.Nanopb.DecodeField.{MessageDecoder, ValueDecoder, pb_decoders, decode_static_field}
use app_card.Nanopb.DecodeExtension.{decode_field}
use app_card.Nanopb.MessageDecoder.{
  Progress, goes_on, note_required, with_fixed_count, decode_known, decode_round,
}
use app_card.Nanopb.RoundTrip.Scalar.{IsNumber}

-- The progress that is noted at a field.
abbrev pub noted : PbField → FieldIter → Progress → Progress
noted f iter p = record p { iter = iter; seen = note_required f iter p.seen }

module _ (rt : Runtime) (message message_noinit : MessageDecoder) (depth links at : ℕ) (f : PbField)
    (number : IsNumber f) where
  abbrev func : ℕ → FieldDecoder
  func = pb_decoders rt message message_noinit (ltype f.type) f

  static_required :
      (defaults : List PbField → ℕ → Effect) (decoder : ValueDecoder) (wire_type : ℕ)
      (iter : FieldIter)
      → decode_static_field rt defaults decoder wire_type f iter ≡ decoder f iter.p_data
  unfolding decode_static_field
  static_required defaults decoder wire_type iter = rw (number.required) refl

  -- The field, where `s'` is what its number leaves.
  module _ (iter : FieldIter) (s s' : Input) (current : get_elem? iter.start iter.pos ≡ some f)
      (stores : func iter.p_data s ≡ ok tt s') where
    field_decoded :
        (wire_type : ℕ)
        → decode_field rt message message_noinit depth links wire_type iter s ≡ ok iter s'
    unfolding decode_field
    field_decoded wire_type =
        rw
          (
            current,
            number.required,
            current,
            number.static,
            static_required (pb_message_set_to_defaults rt depth links)
                (pb_decoders rt message message_noinit (ltype f.type)) wire_type iter,
            stores,
          )
          refl

    known_decoded :
        (t : Tag) (p : Progress)
        → decode_known rt message message_noinit depth links at t (record p { iter = iter }) s
          ≡ ok (goes_on (noted f iter p)) s'
    unfolding decode_known with_fixed_count
    known_decoded t p = rw (current, number.required, field_decoded t.wire_type) refl

    -- The round, where the tag is read and the field found.
    pub round_decoded :
        (p : Progress) (stream u : IStream) (wire_type : ℕ)
        → pb_decode_tag stream ≡ ok (record { wire_type = wire_type; tag = f.tag }) u
        → pb_field_iter_find f.tag p.iter ≡ ok tt iter
        → s.stream ≡ u
        → decode_round rt message message_noinit depth links at p (record s { stream = stream })
          ≡ ok (goes_on (noted f iter p)) s'
    unfolding decode_round
    round_decoded p stream u wire_type read found same =
        rw (read, found, ← same, known_decoded (record { wire_type = wire_type; tag = f.tag }) p)
          refl
