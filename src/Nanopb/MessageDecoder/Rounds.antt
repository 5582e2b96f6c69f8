-- ===== src/Nanopb/MessageDecoder/Rounds.antt =====
-- A round of the decoding of a message returns on any bytes, and takes one at least.
use app_card.Base.{
  ℕ, suc, ◌-◌, ◌^◌, ◌<◌, ◌≡◌, ◌∙◌, Bool, true, false, not, ◌&&◌, Bool-cases, inl, inr, List, ◌==◌,
  leb, get_elem?, some, Run, ok, failed, fault, stuck, Cmd, ◌>>=◌, pure, All, arith,
}
use app_card.Nanopb.Pb.{PbField, htype, htype_repeated, wrong_size_for_fixed_count_field}
use app_card.Nanopb.Memory.{store}
use app_card.Nanopb.IStream.{IStream, Tag, pb_decode_tag, pb_skip_field}
use app_card.Nanopb.IStream.Safety.{Follows, Follows-refl, Follows-trans}
use app_card.Nanopb.IStream.Settles.{pb_skip_field-Settles}
use app_card.Nanopb.IStream.Leaves.{Leaves, IsInput, Follows-IsInput, Follows-Leaves, Leaves-trans}
use app_card.Nanopb.IStream.Tags.{ReadsTag, pb_decode_tag-ReadsTag}
use app_card.Nanopb.FieldIter.{FieldIter, pb_field_iter_find}
use app_card.Nanopb.FieldIter.Step.{IsTable}
use app_card.Nanopb.FieldIter.Inside.{IsAtField, field_there, pb_field_iter_find-StaysIn}
use app_card.Nanopb.Decoders.{Input, lift, put}
use app_card.Nanopb.Decoders.Halts.{
  Halts, Safe, Any, Halts-bind, Safe-then, Safe-if, Safe-write, Safe-fail, lift-Safe,
}
use app_card.Nanopb.Runtime.{Runtime, on_result}
use app_card.Nanopb.DecodeField.{MessageDecoder}
use app_card.Nanopb.DecodeExtension.{decode_field}
use app_card.Nanopb.DecodeExtension.Find.{NoExtension, find_extension_field-Returned}
use app_card.Nanopb.DecodeExtension.Decodable.{Decodable, IsDecodable}
use app_card.Nanopb.DecodeExtension.Fields.{on_result-Halts, with_field-Halts, decode_field-Safe}
use app_card.Nanopb.MessageDecoder.{
  Progress, Step, goes_on, at_end, with_tag, skip, is_field, is_short, note_required, in_range,
  decode_unknown, with_fixed_count, decode_known, decode_round,
}

-- The loop goes on, or ends, at a field of the table.
abbrev pub StepsTo : List PbField → PbField → Step → Input → Type 0
StepsTo fs end (goes_on q) t = IsAtField fs end q.iter
StepsTo fs end (at_end q) t = IsAtField fs end q.iter

-- The outcome of a round.
abbrev pub Rounds : List PbField → PbField → IStream → Run Input (Unit {0}) Step → Type 0
Rounds fs end s (ok (goes_on q) t) =
    Follows s t.stream × (t.stream.bytes_left < s.bytes_left) × IsAtField fs end q.iter
Rounds fs end s (ok (at_end q) t) = Follows s t.stream × IsAtField fs end q.iter
Rounds fs end s (failed e t) = Leaves s t.stream
Rounds fs end s fault = ⊥
Rounds fs end s stuck = ⊥

module _ (fs : List PbField) (end : PbField) where
  skip-Safe :
      (wire_type : ℕ) (p : Progress)
      → IsAtField fs end p.iter
      → Safe (StepsTo fs end) (skip wire_type p)
  skip-Safe wire_type p at =
      Safe-then (StepsTo fs end) (lift (pb_skip_field wire_type)) _
        (lift-Safe (pb_skip_field wire_type) (pb_skip_field-Settles wire_type))
        λ s input. (Follows-refl s.stream, at)

  -- What follows the tag keeps the byte that was taken.
  after_tag :
      {s u : IStream} (r : Run Input (Unit {0}) Step)
      → Follows s u
      → u.bytes_left < s.bytes_left
      → Halts (StepsTo fs end) u r
      → Rounds fs end s r
  after_tag (ok (goes_on q) t) f less h =
      (Follows-trans f h.0, omega (arith, h.0.bytes_left, less), h.1)
  after_tag (ok (at_end q) t) f less h = (Follows-trans f h.0, h.1)
  after_tag (failed e t) f less h = Leaves-trans (Follows-Leaves f) h
  after_tag fault f less h = h
  after_tag stuck f less h = h

  module _ (rt : Runtime) (message message_noinit : MessageDecoder) (depth links fixed_count_at : ℕ)
      (t : IsTable fs end) (plain : NoExtension fs) (fields : All (Decodable rt (suc depth)) fs)
      (decodes : (table : List PbField) (dest : ℕ)
        → IsDecodable rt depth table
        → Safe Any (message table dest) × Safe Any (message_noinit table dest)) where
    decode_unknown-Safe :
        (tag : Tag) (p : Progress)
        → tag.tag < 2 ^ 29
        → IsAtField fs end p.iter
        → Safe
            (StepsTo fs end)
            (decode_unknown rt message message_noinit (suc depth) links fixed_count_at tag p)
    unfolding decode_unknown in_range
    decode_unknown-Safe tag p small at s input =
        elim (Bool-cases (leb p.extension_range_start tag.tag)) [
          | inr below ↦ rw below (skip-Safe tag.wire_type p at s input)
          | inl above ↦
              let r = find_extension_field-Returned fs end p.iter t plain at.table at.inside in
              let out : leb (2 ^ 32 - 1) tag.tag ≡ false = ground arith in
              rw (above, r.result, out)
                (skip-Safe tag.wire_type
                  (record p { iter = r.to; extension_range_start = 2 ^ 32 - 1 })
                  (record { table = r.same ∙ at.table; inside = omega (arith, r.at, at.inside) }) s
                  input)
        ]

    -- The fixed count changes only where the iterator has the count.
    with_fixed_count-Safe :
        (f : PbField) (p : Progress) (k : Progress → Cmd Input (Unit {0}) Step)
        → IsAtField fs end p.iter
        → ((q : Progress) → IsAtField fs end q.iter → Safe (StepsTo fs end) (k q))
        → Safe
            (StepsTo fs end)
            (with_fixed_count rt message message_noinit (suc depth) links fixed_count_at f p k)
    unfolding with_fixed_count
    with_fixed_count-Safe f p k at h s =
        let Q = StepsTo fs end in
        let counted : Progress =
          let iter = p.iter in
          record p {
            iter = record iter { p_size = fixed_count_at };
            fixed_count_field = some p.iter.pos;
          } in
        let at' : IsAtField fs end counted.iter = record { table = at.table; inside = at.inside } in
        Safe-if Q (not (htype f.type == htype_repeated && p.iter.p_size == p.iter.p_data)) _ _
          (λ _. h p at)
          (λ _.
            Safe-if Q (is_field p.fixed_count_field p.iter.pos) _ _ (λ _. h counted at')
              λ _.
                Safe-if Q (is_short p.fixed_count_field p.iter fixed_count_at s) _ _
                  (λ _. Safe-fail Q wrong_size_for_fixed_count_field)
                  λ _.
                    Safe-then Q (put 4 0 fixed_count_at) _
                      (Safe-write (λ m. store 4 0 m fixed_count_at)) (h counted at'))
          s

    decode_known-Safe :
        (tag : Tag) (p : Progress)
        → IsAtField fs end p.iter
        → Safe
            (StepsTo fs end)
            (decode_known rt message message_noinit (suc depth) links fixed_count_at tag p)
    unfolding decode_known
    decode_known-Safe tag p at s input =
        let Q = StepsTo fs end in
        let c = field_there (Decodable rt (suc depth)) p.iter at fields in
        with_field-Halts Q (get_elem? p.iter.start p.iter.pos) c.field _ s c.current (
          with_fixed_count-Safe c.field p
            (λ q.
              decode_field rt message message_noinit (suc depth) links tag.wire_type q.iter
              >>= noted c.field q)
            at
            (λ q at_q u input'.
              Halts-bind (λ iter v. IsAtField fs end iter) Q _ (noted c.field q) input'
                (decode_field-Safe rt message message_noinit depth links decodes fs end t fields
                  tag.wire_type q.iter at_q u input')
                λ iter v input'' follows at'. (Follows-refl v.stream, at'))
            s input)
      where
        noted : PbField → Progress → FieldIter → Cmd Input (Unit {0}) Step
        noted f q iter =
            pure (goes_on (record q { iter = iter; seen = note_required f q.iter q.seen }))

    -- A round from a field of the message.
    pub decode_round-Rounds :
        (p : Progress) (s : Input)
        → IsAtField fs end p.iter
        → IsInput s.stream
        → Rounds fs end s.stream
            (decode_round rt message message_noinit (suc depth) links fixed_count_at p s)
    unfolding decode_round
    decode_round-Rounds p s at input =
        tagged (pb_decode_tag s.stream) (pb_decode_tag-ReadsTag s.stream input)
      where
        searched :
            (tag : Tag) (u : IStream)
            → Follows s.stream u
            → u.bytes_left < s.stream.bytes_left
            → tag.tag < 2 ^ 29
            → Rounds fs end s.stream (
                on_result
                  (pb_field_iter_find tag.tag p.iter)
                  (λ iter.
                    decode_known rt message message_noinit
                      (suc depth)
                      links
                      fixed_count_at
                      tag
                      (record p { iter = iter }))
                  (λ iter.
                    decode_unknown rt message message_noinit
                      (suc depth)
                      links
                      fixed_count_at
                      tag
                      (record p { iter = iter }))
                  (record s { stream = u }))
        searched tag u f less small =
            let input' = Follows-IsInput f input in
            after_tag _ f less (
              on_result-Halts (StepsTo fs end) fs end (record s { stream = u }) _ _ _
                (pb_field_iter_find-StaysIn fs end tag.tag p.iter t at)
                (λ to at'. decode_known-Safe tag (record p { iter = to }) at' _ input')
                λ to at'. decode_unknown-Safe tag (record p { iter = to }) small at' _ input')

        tagged :
            (r : Run IStream Bool Tag)
            → ReadsTag s.stream r
            → Rounds fs end s.stream (
                with_tag r
                  (pure (at_end p))
                  (λ tag.
                    on_result
                      (pb_field_iter_find tag.tag p.iter)
                      (λ iter.
                        decode_known rt message message_noinit
                          (suc depth)
                          links
                          fixed_count_at
                          tag
                          (record p { iter = iter }))
                      (λ iter.
                        decode_unknown rt message message_noinit
                          (suc depth)
                          links
                          fixed_count_at
                          tag
                          (record p { iter = iter })))
                  s)
        tagged (ok tag u) h = searched tag u h.0 h.1 h.2
        tagged (failed true u) h = (h, at)
        tagged (failed false u) h = Follows-Leaves h
        tagged fault h = h
        tagged stuck h = h
