-- ===== src/Nanopb/MessageDecoder/Unknown.antt =====
-- Fields that a message does not know, as those of a later version of it, are skipped.
use app_card.Base.{
  ℕ, zero, suc, ◌-◌, ◌^◌, ◌<◌, ◌≡◌, refl, ap, ◌∙◌, subst, inl, inr, false, Bool-cases, some, List,
  [], ◌∷◌, ◌++◌, leb, append_assoc, length-append, length, get_elem?, Run, ok, failed, All, arith,
}
use mathlib.Core.Option.{some-injective}
use app_card.Nanopb.Pb.{PbField}
use app_card.Nanopb.OStream.Varint.{varint, tag_number}
use app_card.Nanopb.IStream.{IStream, Tag, pb_decode_tag, pb_skip_field}
use app_card.Nanopb.IStream.Contract.{after, after-append}
use app_card.Nanopb.IStream.Varint32.{pb_decode_tag-varint}
use app_card.Nanopb.IStream.Skip.{IsValue, IsValue-lt, pb_skip_field-Reads}
use app_card.Nanopb.RoundTrip.{StandsAt}
use app_card.Nanopb.FieldIter.{FieldIter, wanted, pb_field_iter_find}
use app_card.Nanopb.FieldIter.Step.{IsTable}
use app_card.Nanopb.FieldIter.Walk.{Unwanted}
use app_card.Nanopb.FieldIter.Find.{pb_field_iter_find-cases}
use app_card.Nanopb.FieldIter.Inside.{Split, split}
use app_card.Nanopb.Decoders.{Input}
use app_card.Nanopb.Runtime.{Runtime}
use app_card.Nanopb.DecodeField.{MessageDecoder}
use app_card.Nanopb.DecodeExtension.Find.{NoExtension, find_extension_field-Returned}
use app_card.Nanopb.MessageDecoder.{Progress, Step, goes_on, in_range, decode_unknown, decode_round}

-- The locals of the loop but for the extension range, and the place in the table.
pub record SamePlace (p q : Progress) : Type 0 where
  pub start : q.iter.start ≡ p.iter.start
  pub pos : q.iter.pos ≡ p.iter.pos
  pub seen : q.seen ≡ p.seen
  pub fixed_count_field : q.fixed_count_field ≡ p.fixed_count_field

-- The loop goes on at the same place with an unchanged message, and the stream is at `rest`, behind
-- `bs`.
pub record Skips (p : Progress) (bs rest : List ℕ) (s : Input) (r : Run Input (Unit {0}) Step)
    : Type 0 where
  pub to : Progress
  pub result : r ≡ ok (goes_on to) (record s { stream = after bs rest s.stream })
  pub same : SamePlace p to

All-get_elem? :
    (P : PbField → Type 0) (xs : List PbField) (i : ℕ) (f : PbField)
    → All P xs
    → get_elem? xs i ≡ some f
    → P f
All-get_elem? P [] i f h e = absurd (ground (arith, e))
All-get_elem? P (x ∷ xs) zero f h e = subst P (some-injective x f e) h.0
All-get_elem? P (x ∷ xs) (suc i) f h e = All-get_elem? P xs i f h.1 e

-- The loop stands at a field of a table.
pub record StandsIn (fs : List PbField) (end : PbField) (p : Progress) : Type 0 where
  pub table : p.iter.start ≡ fs ++ (end ∷ [])
  pub inside : p.iter.pos < length fs
  pub is_table : IsTable fs end

-- The search for a field with an unknown tag comes back.
record Missing (p : Progress) (r : Run FieldIter (Unit {0}) (Unit {0})) : Type 0 where
  pub to : FieldIter
  pub result : r ≡ failed tt to
  pub same : to.start ≡ p.iter.start
  pub at : to.pos ≡ p.iter.pos

module _ (fs : List PbField) (end : PbField) (p : Progress) (stands : StandsIn fs end p) (tag : ℕ)
    (pos : 0 < tag) (unknown : Unwanted tag fs) where
  not_last : wanted tag end ≡ false
  unfolding wanted
  not_last = ground (arith, stands.is_table.last)

  none_wanted : (xs : List PbField) → Unwanted tag xs → Unwanted tag (xs ++ (end ∷ []))
  none_wanted [] h = (not_last, tt)
  none_wanted (x ∷ xs) h = (h.0, none_wanted xs h.1)

  missing : Missing p (pb_field_iter_find tag p.iter)
  missing = found (split fs p.iter.pos stands.inside)
    where
      found : Split fs p.iter.pos → Missing p (pb_field_iter_find tag p.iter)
      found s =
          elim (pb_field_iter_find-cases s.front s.at s.back end tag p.iter
            (subst (λ (x : List PbField). IsTable x end) s.whole stands.is_table)
            (stands.table ∙ ap (λ (x : List PbField). x ++ (end ∷ [])) s.whole) s.index) [
              | inl q ↦
                  let unwanted =
                    All-get_elem? (λ f. wanted tag f ≡ false) (fs ++ (end ∷ [])) q.to.pos q.field
                      (none_wanted fs unknown) (rw (← (q.start ∙ stands.table)) q.current) in
                  absurd (ground (arith, unwanted, q.is_wanted))
              | inr q ↦ record { to = q.to; result = q.result; same = q.start; at = q.at }
            ]

module _ (rt : Runtime) (message message_noinit : MessageDecoder) (depth links fixed_count_at : ℕ)
    (fs : List PbField) (end : PbField) (plain : NoExtension fs) where
  -- Behind the tag, from where the decoder takes just the value.
  decode_unknown-Skips :
      (t : Tag) (p q : Progress) (bs rest : List ℕ) (s : Input)
      → SamePlace p q
      → StandsIn fs end q
      → t.tag < 2 ^ 32 - 1
      → pb_skip_field t.wire_type s.stream ≡ ok tt (after bs rest s.stream)
      → Skips p bs rest s
          (decode_unknown rt message message_noinit depth links fixed_count_at t q s)
  unfolding decode_unknown in_range
  decode_unknown-Skips t p q bs rest s same stands small skipped =
      elim (Bool-cases (leb q.extension_range_start t.tag)) [
        | inr below ↦ rw (below, skipped) (record { to = q; result = refl; same = same })
        | inl above ↦
            let r =
              find_extension_field-Returned fs end q.iter stands.is_table plain stands.table
                stands.inside in
            let out : leb (2 ^ 32 - 1) t.tag ≡ false = ground arith in
            rw (above, r.result, out, skipped)
              (record {
                to = record q { iter = r.to; extension_range_start = 2 ^ 32 - 1 };
                result = refl;
                same = record {
                  start = r.same ∙ same.start;
                  pos = r.at ∙ same.pos;
                  seen = same.seen;
                  fixed_count_field = same.fixed_count_field;
                };
              })
      ]

  -- In the table of a message without extensions, on a buffer stream that stands at a field in the
  -- wire format: a tag, of a field number from 1 to 2 ^ 29 - 1 that no field of the message has,
  -- and a value of its wire type (a varint of any length, 8 bytes, less than 2 ^ 32 bytes with
  -- their length in front, or 4 bytes). A round of the loop of `pb_decode_noinit` goes on, has
  -- taken just the tag and the value off the stream, whatever is behind them, and leaves the
  -- message, the place in the table and what is noted of fields as they were.
  pub decode_round-Skips :
      (wire_type tag : ℕ) (bs rest : List ℕ) (p : Progress) (s : Input)
      → StandsIn fs end p
      → 0 < tag
      → tag < 2 ^ 29
      → Unwanted tag fs
      → IsValue wire_type bs
      → StandsAt (varint (tag_number wire_type tag) ++ bs) rest s.stream
      → Skips p
          (varint (tag_number wire_type tag) ++ bs)
          rest
          s
          (decode_round rt message message_noinit depth links fixed_count_at p s)
  unfolding decode_round
  decode_round-Skips wire_type tag bs rest p s stands pos small unknown value at =
      let m = missing fs end p stands tag pos unknown in
      let front = varint (tag_number wire_type tag) in
      let size = length-append front bs in
      let u = after front (bs ++ rest) s.stream in
      let read : pb_decode_tag s.stream ≡ ok (record { wire_type = wire_type; tag = tag }) u =
        pb_decode_tag-varint wire_type tag (IsValue-lt value) pos small s.stream (bs ++ rest)
          at.callback (at.state ∙ append_assoc front bs rest) (omega (arith, at.left, size)) in
      let skips =
        decode_unknown-Skips (record { wire_type = wire_type; tag = tag }) p
          (record p { iter = m.to }) bs rest (record s { stream = u })
          (record { start = m.same; pos = m.at; seen = refl; fixed_count_field = refl })
          (record {
            table = m.same ∙ stands.table;
            inside = omega (arith, m.at, stands.inside);
            is_table = stands.is_table;
          })
          (omega (arith, small))
          (pb_skip_field-Reads wire_type bs value u rest at.callback refl
            (omega (arith, at.left, size))) in
      rw (read, m.result)
        (record {
          to = skips.to;
          result =
              skips.result
              ∙ ap (λ (v : IStream). ok (goes_on skips.to) (record s { stream = v }))
                  (after-append front bs rest s.stream);
          same = skips.same;
        })
