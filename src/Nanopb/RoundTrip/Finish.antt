-- ===== src/Nanopb/RoundTrip/Finish.antt =====
-- The checks behind the last field that was read, in a message of required numbers.
use app_card.Base.{
  subst, ℕ, suc, ◌+◌, ◌∙◌, refl, ◌<◌, ◌≡◌, ◌≢◌, List, [], ◌∷◌, ◌++◌, length, get_elem?, some, none,
  ok, All, arith,
}
use app_card.Nanopb.Pb.{PbField, missing_required_field}
use app_card.Nanopb.FieldIter.Step.{IsTable}
use app_card.Nanopb.Decoders.{Input}
use app_card.Nanopb.Runtime.{Runtime, fail}
use app_card.Nanopb.DecodeField.{MessageDecoder}
use app_card.Nanopb.MessageDecoder.{Seen, Progress, check_required, finish}
use app_card.Nanopb.MessageDecoder.Counts.{Counts, finish-Counts, required_in, upto_64}
use app_card.Nanopb.MessageDecoder.Words.{marked}
use app_card.Nanopb.MessageDecoder.Required.{check_required-marked}
use app_card.Nanopb.RoundTrip.Scalar.{IsNumber}
use app_card.Nanopb.RoundTrip.Layout.{below, below-lt, Mem-below, no_Mem-below}

-- The loop stands at `f`, which ends at `b`, and has seen it and the fields in front of it. The
-- entries `behind` are left aside.
pub record HasSeen (front : List PbField) (f : PbField) (back behind : List PbField)
    (first : PbField) (b : ℕ) (p : Progress) : Type 0 where
  pub table : p.iter.start ≡ front ++ (f ∷ (back ++ behind))
  pub pos : p.iter.pos ≡ length front
  pub data_end : p.iter.p_data + f.data_size ≡ b
  pub index : p.iter.required_field_index ≡ length front
  pub seen : p.seen ≡ marked (below (suc (length front)))
  pub no_count : p.fixed_count_field ≡ none
  pub begins : get_elem? p.iter.start 0 ≡ some first

-- All of the fields are required.
required_numbers : (fs : List PbField) → All IsNumber fs → required_in fs ≡ length fs
required_numbers [] h = refl
required_numbers (f ∷ fs) h =
    let one : required_in (f ∷ []) ≡ 1 = ground (arith, h.0.required) in
    omega (arith, one, required_numbers fs h.1)

module _ (rt : Runtime) (message message_noinit : MessageDecoder) (depth links at b : ℕ)
    (front back : List PbField) (f end first : PbField) (p : Progress) (s : Input)
    (h : HasSeen front f [] (back ++ (end ∷ [])) first b p) (n : All IsNumber (f ∷ back))
    (t : IsTable (f ∷ back) end) (tag : first.tag ≢ 0) (few : length front + length back < 64) where
  abbrev seen_below : List ℕ
  seen_below = below (suc (length front))

  checks :
      Counts
        (check_required (marked seen_below))
        first
        (suc (length front + length back))
        s
        (finish rt message message_noinit depth links at p s)
  checks =
      let c =
        finish-Counts rt message message_noinit depth links at front f back end first p s h.table
          h.pos t (omega (arith, h.index, few)) h.begins tag (rw (h.no_count) refl) in
      let size : upto_64 (p.iter.required_field_index + required_in (f ∷ back))
          ≡ suc (length front + length back) =
        ground (arith, h.index, few, required_numbers (f ∷ back) n) in
      record {
        end = c.end;
        result =
            subst
              (λ (seen : Seen).
                finish rt message message_noinit depth links at p s ≡ check_required seen c.end s)
              h.seen c.result;
        current = c.current;
        count = c.count ∙ size;
      }

  below_count : (k : ℕ) → k ≡ suc (length front + length back) → All (λ i. i < k) seen_below
  below_count k e = below-lt (suc (length front)) k (omega (arith, e))

  pub finish-HasSeen :
      length back ≡ 0 → finish rt message message_noinit depth links at p s ≡ ok tt s
  finish-HasSeen last =
      let c = checks in
      c.result
      ∙ (check_required-marked seen_below c.end first s c.current (below_count _ c.count)).0
          (λ i lt. Mem-below (suc (length front)) i (omega (arith, lt, c.count, last)))

  pub finish-misses :
      0 < length back
      → finish rt message message_noinit depth links at p s ≡ fail missing_required_field s
  finish-misses more =
      let c = checks in
      c.result
      ∙ (check_required-marked seen_below c.end first s c.current (below_count _ c.count)).1
          (suc (length front)) (omega (arith, c.count, more))
          (no_Mem-below (suc (length front)) (suc (length front)) (omega arith))
