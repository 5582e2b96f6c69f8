-- ===== src/Nanopb/RoundTrip/Format.antt =====
-- The wire format of a message of required numbers.
use app_card.Base.{
  ℕ, suc, ◌+◌, ◌^◌, ◌<◌, ◌≡◌, refl, ◌∙◌, ap, false, true, ◌&&◌, Bool-cases, inl, inr, List, [], ◌∷◌,
  ◌++◌, some, ◌==◌, ltb, All, arith,
}
use app_card.Nanopb.Pb.{PbField, ltype, ltype_extension, ltype_submessage}
use app_card.Nanopb.Memory.{Memory}
use app_card.Nanopb.OStream.Varint.{varint, tag_number}
use app_card.Nanopb.FieldIter.{FieldIter, begun, advanced}
use app_card.Nanopb.FieldIter.Step.{IsTable}
use app_card.Nanopb.Environment.{Environment}
use app_card.Nanopb.Encoders.Emit.{IsBytes}
use app_card.Nanopb.Runtime.{Runtime}
use app_card.Nanopb.MessageEncoder.Wire.{
  Wire, UserWire, then_bytes, tag_bytes, value_bytes, present_bytes, basic_bytes, field_bytes,
  entry_bytes, fields_bytes, message_bytes,
}
use app_card.Nanopb.RoundTrip.Scalar.{
  coded, IsNumber, IsNumberType, signed_type, unsigned_type, zigzag_type, fixed32_type,
  fixed64_type,
}
use app_card.Nanopb.RoundTrip.Layout.{span, field_wire, flat}
use app_card.Nanopb.RoundTrip.Takes.{advanced_number}

-- A number type is neither that of extensions nor that of submessages.
pub number_type :
    (f : PbField)
    → IsNumberType f
    → ((ltype f.type == ltype_extension) ≡ false) × ((ltype f.type == ltype_submessage) ≡ false)
number_type f (signed_type e size) = ground (arith, e)
number_type f (unsigned_type e size) = ground (arith, e)
number_type f (zigzag_type e size) = ground (arith, e)
number_type f (fixed32_type e size) = ground (arith, e)
number_type f (fixed64_type e size) = ground (arith, e)

module _ (rt : Runtime) (env : Environment) (m : Memory) (is_bytes : IsBytes m) (user : UserWire)
    (message : List PbField → ℕ → Wire) (depth links : ℕ) where
  entry_number :
      (f : PbField) (n : IsNumber f) (a : ℕ)
      → 0 < a
      → entry_bytes env m user message depth links f (a + f.data_offset)
        ≡ some (field_wire rt env m is_bytes f n a)
  unfolding field_bytes basic_bytes present_bytes tag_bytes value_bytes
  entry_number f n a pos =
      let c = coded rt env m f (a + f.data_offset) is_bytes n.number in
      let here : (a + f.data_offset == 0) ≡ false = ground arith in
      let tag_fits : (ltb c.wire_type 8 && ltb f.tag (2 ^ 32)) ≡ true =
        ground (arith, c.small, n.tag_small) in
      let tag = varint (tag_number c.wire_type f.tag) in
      let written = ap (λ (w : Wire). then_bytes (some tag) w) (c.encoded message) in
      elim (Bool-cases (f.size_offset == 0)) [
        | inl without ↦
            rw
              (
                (number_type f n.number).0,
                n.static,
                without,
                n.required,
                here,
                c.wire_type_is,
                tag_fits,
              )
              (rw (n.static, here) at written)
        | inr with_size ↦
            rw
              (
                (number_type f n.number).0,
                n.static,
                with_size,
                n.required,
                here,
                c.wire_type_is,
                tag_fits,
              )
              (rw (n.static, here) at written)
      ]

  fields_numbers :
      (back : List PbField) (f end : PbField) (n : IsNumber f) (numbers : All IsNumber back) (a : ℕ)
      (iter : FieldIter)
      → IsTable (f ∷ back) end
      → 0 < a
      → a + span (f ∷ back) < 2 ^ 64
      → iter.p_data ≡ a + f.data_offset
      → fields_bytes env m
          (entry_bytes env m user message depth links)
          (f ∷ (back ++ (end ∷ [])))
          iter
        ≡ some (flat rt env m is_bytes (f ∷ back) (n, numbers) a)
  unfolding fields_bytes
  fields_numbers [] f end n numbers a iter t pos fits place =
      let entry =
        ap (entry_bytes env m user message depth links f) place ∙ entry_number f n a pos in
      let last : (end.tag == 0) ≡ true = ground (arith, t.last) in rw (entry, last) refl
  fields_numbers (g ∷ back) f end n numbers a iter t pos fits place =
      let entry =
        ap (entry_bytes env m user message depth links f) place ∙ entry_number f n a pos in
      let more : (g.tag == 0) ≡ false = ground (arith, t.tags.1.0) in
      let behind =
        fields_numbers back g end numbers.0 numbers.1 (a + f.data_offset + f.data_size)
          (advanced f g iter) (record { tags = t.tags.1; last = t.last }) (omega arith)
          (omega (arith, fits)) (omega (arith, (advanced_number f g iter n).0, place, fits)) in
      rw (entry, more)
        (ap (λ (w : Wire). then_bytes (some (field_wire rt env m is_bytes f n a)) w) behind)

-- The wire format of the message at `src`.
pub message_bytes-flat :
    (rt : Runtime) (env : Environment) (m : Memory) (is_bytes : IsBytes m) (user : UserWire)
    (depth links : ℕ) (f : PbField) (back : List PbField) (end : PbField)
    (numbers : All IsNumber (f ∷ back)) (src : ℕ)
    → IsTable (f ∷ back) end
    → 0 < src
    → src + span (f ∷ back) < 2 ^ 64
    → message_bytes env m user (suc depth) links (f ∷ (back ++ (end ∷ []))) src
      ≡ some (flat rt env m is_bytes (f ∷ back) numbers src)
unfolding message_bytes
message_bytes-flat rt env m is_bytes user depth links f back end numbers src t pos fits =
    let full : (f.tag == 0) ≡ false = ground (arith, t.tags.0) in
    rw full (
      fields_numbers rt env m is_bytes user (message_bytes env m user depth links) (suc depth) links
        back f end numbers.0 numbers.1 src (begun (f ∷ (back ++ (end ∷ []))) src f) t pos fits
        (omega (arith, fits)))
