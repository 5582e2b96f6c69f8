-- ===== src/Nanopb/DecodeExtension/Fields.antt =====
-- The decoding of a field of a message without callbacks and extensions returns on any bytes.
use app_card.Base.{
  ℕ, suc, ◌≡◌, true, ◌||◌, inl, inr, List, ◌==◌, get_elem?, some, Option, Run, ok, failed, fault,
  stuck, Cmd, ◌>>◌, pure, All, arith,
}
use app_card.Nanopb.Pb.{
  PbField, atype, htype, ltype, atype_static, atype_callback, atype_pointer, htype_oneof,
  ltype_submessage, invalid_field_type, iterator_error, invalid_union_tag,
}
use app_card.Nanopb.Memory.{load}
use app_card.Nanopb.IStream.Safety.{Follows-refl}
use app_card.Nanopb.IStream.Leaves.{Follows-Leaves}
use app_card.Nanopb.FieldIter.{FieldIter, pb_field_iter_find}
use app_card.Nanopb.FieldIter.Step.{IsTable}
use app_card.Nanopb.FieldIter.Inside.{IsAtField, field_there, StaysIn, pb_field_iter_find-StaysIn}
use app_card.Nanopb.Decoders.{Input}
use app_card.Nanopb.Decoders.Halts.{
  Halts, Safe, Any, Advances, Halts-bind, Halts-if, Safe-then, Safe-if, Safe-error, Safe-fail,
  on_memory-Safe,
}
use app_card.Nanopb.Runtime.{Runtime, on_memory, on_result, with_field}
use app_card.Nanopb.SetDefaults.{pb_message_set_to_defaults}
use app_card.Nanopb.SetDefaults.Returns.{Nests, Returns, pb_message_set_to_defaults-Returns}
use app_card.Nanopb.Release.{pb_release_single_field, pb_release_union_field}
use app_card.Nanopb.Release.Returns.{pb_release_single_field-Returns}
use app_card.Nanopb.DecodeField.{MessageDecoder, pb_decoders}
use app_card.Nanopb.DecodeField.Arrays.{DecodesItem}
use app_card.Nanopb.DecodeField.Scalars.{pb_decoders-DecodesItem}
use app_card.Nanopb.DecodeField.Values.{pb_decoders-Safe}
use app_card.Nanopb.DecodeField.Fields.{IsValueDecoder, decode_static_field-Safe}
use app_card.Nanopb.DecodePointer.Fields.{decode_pointer_field-Safe}
use app_card.Nanopb.DecodeExtension.{decode_allocated, decode_field}
use app_card.Nanopb.DecodeExtension.Decodable.{
  Decodable, Decodable-IsPlain, IsDecodable, IsMessage-map, Decodable-Nests, Nests-suc,
}

DecodesItem-Advances :
    (a n : ℕ) (s : Input) (r : Run Input (Unit {0}) (Unit {0}))
    → DecodesItem a n s r
    → Advances s.stream r
DecodesItem-Advances a n s (ok v t) h = (h.0, h.1)
DecodesItem-Advances a n s (failed e t) h = Follows-Leaves h.0
DecodesItem-Advances a n s fault h = h
DecodesItem-Advances a n s stuck h = h

-- A search whose result decides.
pub on_result-Halts :
    {A : Type 0} (Q : A → Input → Type 0) (fs : List PbField) (end : PbField) (s : Input)
    (r : Run FieldIter (Unit {0}) (Unit {0})) (k l : FieldIter → Cmd Input (Unit {0}) A)
    → StaysIn fs end r
    → ((to : FieldIter) → IsAtField fs end to → Halts Q s.stream (k to s))
    → ((to : FieldIter) → IsAtField fs end to → Halts Q s.stream (l to s))
    → Halts Q s.stream (on_result r k l s)
on_result-Halts Q fs end s (ok a to) k l h found missed = found to h
on_result-Halts Q fs end s (failed e to) k l h found missed = missed to h
on_result-Halts Q fs end s fault k l h found missed = h
on_result-Halts Q fs end s stuck k l h found missed = h

-- What is done at the current field.
pub with_field-Halts :
    {A : Type 0} (Q : A → Input → Type 0) (o : Option PbField) (f : PbField)
    (k : PbField → Cmd Input (Unit {0}) A) (s : Input)
    → o ≡ some f
    → Halts Q s.stream (k f s)
    → Halts Q s.stream (with_field o k s)
with_field-Halts Q o f k s e h = rw e h

module _ (rt : Runtime) (message message_noinit : MessageDecoder) (depth links : ℕ)
    (decodes : (table : List PbField) (dest : ℕ)
      → IsDecodable rt depth table
      → Safe Any (message table dest) × Safe Any (message_noinit table dest)) where
  defaults-Returns :
      (f : PbField) (p : ℕ)
      → Decodable rt (suc depth) f
      → (ltype f.type == ltype_submessage) ≡ true
      → Returns (pb_message_set_to_defaults rt (suc depth) links (rt.tables f.ptr) p)
  unfolding Decodable
  defaults-Returns f p (plain, inl other) sub = absurd (ground (arith, other, sub))
  defaults-Returns f p (plain, inr table) sub = λ m.
      pb_message_set_to_defaults-Returns rt (suc depth) links (rt.tables f.ptr) p m (
        IsMessage-map (Decodable rt depth) (Nests rt (suc depth)) (rt.tables f.ptr)
          (λ g h. Nests-suc rt depth g (Decodable-Nests rt depth g h)) table.0)

  submessage-Safe :
      (f : PbField) (p : ℕ)
      → Decodable rt (suc depth) f
      → (ltype f.type == ltype_submessage) ≡ true
      → Safe Any (message (rt.tables f.ptr) p) × Safe Any (message_noinit (rt.tables f.ptr) p)
  unfolding Decodable
  submessage-Safe f p (plain, inl other) sub = absurd (ground (arith, other, sub))
  submessage-Safe f p (plain, inr table) sub = decodes (rt.tables f.ptr) p table

  func-IsValueDecoder :
      (f : PbField)
      → Decodable rt (suc depth) f
      → IsValueDecoder rt
          (pb_message_set_to_defaults rt (suc depth) links)
          (pb_decoders rt message message_noinit (ltype f.type))
          f
  func-IsValueDecoder f h =
      let plain = Decodable-IsPlain rt depth f h in
      record {
        safe = λ a.
            pb_decoders-Safe rt message message_noinit f a plain.known plain.no_extension
              plain.items (submessage-Safe f a h);
        advances = λ packable a s input. DecodesItem-Advances a f.data_size s _ (
            pb_decoders-DecodesItem f a s input.readable rt message message_noinit
              (plain.items packable));
        sized = λ packable. (plain.items packable).byte;
        inits = λ sub p. defaults-Returns f p h sub;
      }

  decode_allocated-Safe :
      (wire_type : ℕ) (f : PbField) (iter : FieldIter)
      → get_elem? iter.start iter.pos ≡ some f
      → Decodable rt (suc depth) f
      → Safe Any (decode_allocated rt message message_noinit (suc depth) links wire_type f iter)
  unfolding decode_allocated
  decode_allocated-Safe wire_type f iter current h =
      let value = func-IsValueDecoder f h in
      let no_callback = (Decodable-IsPlain rt depth f h).no_callback in
      Safe-if Any (atype f.type == atype_static) _ _
        (λ _. decode_static_field-Safe rt _ _ wire_type f iter value)
        λ _.
          Safe-if Any (atype f.type == atype_pointer) _ _
            (λ _.
              decode_pointer_field-Safe rt _ _ f iter value
                (pb_release_single_field rt (suc depth) links) wire_type
                λ sub.
                  pb_release_single_field-Returns rt (suc depth) links iter f current
                    (Decodable-Nests rt (suc depth) f h))
            λ _.
              Safe-if Any (atype f.type == atype_callback) _ _
                (λ e. absurd (ground (arith, e, no_callback))) λ _. Safe-error invalid_field_type

  module _ (fs : List PbField) (end : PbField) (t : IsTable fs end)
      (fields : All (Decodable rt (suc depth)) fs) where
    -- The iterator is returned, at a field.
    abbrev AtField : FieldIter → Input → Type 0
    AtField iter u = IsAtField fs end iter

    released-Safe :
        (iter : FieldIter)
        → IsAtField fs end iter
        → Safe Any (on_memory (pb_release_single_field rt (suc depth) links iter))
    released-Safe iter at =
        let c = field_there (Decodable rt (suc depth)) iter at fields in
        on_memory-Safe _ (
          pb_release_single_field-Returns rt (suc depth) links iter c.field c.current
            (Decodable-Nests rt (suc depth) c.field c.holds))

    pb_release_union_field-Safe :
        (iter : FieldIter)
        → IsAtField fs end iter
        → Safe AtField (pb_release_union_field rt (suc depth) links iter)
    unfolding pb_release_union_field
    pb_release_union_field-Safe iter at s input =
        let c = field_there (Decodable rt (suc depth)) iter at fields in
        let f = c.field in
        let old_tag = load 4 s.memory iter.p_size in
        rw (c.current) (
          Halts-if AtField s (old_tag == 0 || old_tag == f.tag) _ _
            (λ _. (Follows-refl s.stream, at))
            λ _.
              on_result-Halts AtField fs end s (pb_field_iter_find old_tag iter) _ _
                (pb_field_iter_find-StaysIn fs end old_tag iter t at)
                (λ old at_old.
                  Safe-then AtField _ _ (released-Safe old at_old)
                    (λ u input'.
                      on_result-Halts AtField fs end u (pb_field_iter_find f.tag old) _ _
                        (pb_field_iter_find-StaysIn fs end f.tag old t at_old)
                        (λ to at_new. (Follows-refl u.stream, at_new))
                        λ to at_new. Safe-fail AtField iterator_error u input')
                    s input)
                λ to at_new. Safe-fail AtField invalid_union_tag s input)

    -- At a field of a message the fields of which are decodable.
    pub decode_field-Safe :
        (wire_type : ℕ) (iter : FieldIter)
        → IsAtField fs end iter
        → Safe AtField (decode_field rt message message_noinit (suc depth) links wire_type iter)
    unfolding decode_field
    decode_field-Safe wire_type iter at s input =
        let c = field_there (Decodable rt (suc depth)) iter at fields in
        with_field-Halts AtField (get_elem? iter.start iter.pos) c.field _ s c.current (
          Halts-bind AtField AtField _ _ input
            (Halts-if AtField s (htype c.field.type == htype_oneof) _ _
              (λ _. pb_release_union_field-Safe iter at s input) λ _. (Follows-refl s.stream, at))
            λ iter' u input' follows at'. allocated iter' at' u input')
      where
        allocated :
            (iter' : FieldIter)
            → IsAtField fs end iter'
            → Safe AtField (
                with_field (get_elem? iter'.start iter'.pos) (λ f'.
                  decode_allocated rt message message_noinit (suc depth) links wire_type f' iter'
                  >> pure iter'))
        allocated iter' at' u input' =
            let c = field_there (Decodable rt (suc depth)) iter' at' fields in
            with_field-Halts AtField (get_elem? iter'.start iter'.pos) c.field _ u c.current (
              Safe-then AtField _ _
                (decode_allocated-Safe wire_type c.field iter' c.current c.holds)
                (λ v input''. (Follows-refl v.stream, at')) u input')
