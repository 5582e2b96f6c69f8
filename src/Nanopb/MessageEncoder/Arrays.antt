-- ===== src/Nanopb/MessageEncoder/Arrays.antt =====
-- `encode_array` implements the wire format of arrays, packed and unpacked.
use app_card.Base.{
  ℕ, zero, suc, ◌+◌, ◌*◌, ◌%◌, ◌^◌, ◌<◌, ◌≡◌, refl, ap, ◌∙◌, true, false, Bool-cases, ◌⊎◌, inl, inr,
  not, ◌&&◌, none, some, List, [], ◌++◌, length, length-append, ltb, ltb→lt, leb, ◌==◌,
  if◌then◌else◌, ◌>>◌, arith,
}
use app_card.Nanopb.Pb.{
  PbField, atype, ltype, atype_pointer, ltype_fixed32, ltype_fixed64, ltype_last_packable,
  wt_string,
}
use app_card.Nanopb.Memory.{Memory}
use app_card.Nanopb.OStream.{
  OStream, Encoder, is_null, buf_write_callback, pb_write, pb_encode_varint, pb_ostream_sizing,
}
use app_card.Nanopb.OStream.Contract.{Sends, Emits-Sends, seq-Emits}
use app_card.Nanopb.OStream.Varint.{pb_encode_varint-Emits}
use app_card.Nanopb.Environment.{Environment}
use app_card.Nanopb.MessageEncoder.{
  FieldEncoder, after_items, with_packed_size, write_packed, packed_items, unpacked_items,
  encode_array, item_at,
}
use app_card.Nanopb.MessageEncoder.Wire.{
  Wire, then_bytes, of_bytes, prefixed, tag_bytes, field_tag, packed_bytes, unpacked_bytes,
  array_bytes,
}
use app_card.Nanopb.MessageEncoder.Implements.{
  Implements, none-Implements, nothing-Implements, guard-Implements, if-Implements, seq-Implements,
  tag-Implements, field_tag-Implements, sizing,
}

-- What two parts come to is what each of them comes to.
pub then_bytes-some :
    (u v : Wire) (e : List ℕ)
    → then_bytes u v ≡ some e
    → (a : List ℕ) × (b : List ℕ) × (u ≡ some a) × (v ≡ some b) × (e ≡ a ++ b)
then_bytes-some none v e h = absurd (ground (arith, h))
then_bytes-some (some a) none e h = absurd (ground (arith, h))
then_bytes-some (some a) (some b) e h = (a, b, refl, refl, ground (arith, h))

-- All values of a packed field of a type have the width `c`.
abbrev pub HasWidth : (PbField → ℕ → Wire) → PbField → ℕ → ℕ → Type 0
HasWidth value field lt c =
    (ltype field.type == lt) ≡ true
    → (p : ℕ) (bs : List ℕ) → value field p ≡ some bs
    → length bs ≡ c

module _ (env : Environment) (m : Memory) (func : FieldEncoder) (value : PbField → ℕ → Wire)
    (field : PbField) (implements : (p : ℕ) → Implements (func field p) (value field p)) where
  packed-Implements :
      (left p : ℕ)
      → Implements (packed_items env m func field left p) (packed_bytes env m value field left p)
  unfolding packed_items packed_bytes
  packed-Implements zero p = nothing-Implements
  packed-Implements (suc left) p =
      seq-Implements (value field p) _ (implements p)
        (packed-Implements left ((p + field.data_size) % 2 ^ 64))

  unpacked-Implements :
      (left p : ℕ)
      → Implements
          (unpacked_items env m func field left p)
          (unpacked_bytes env m value field left p)
  unfolding unpacked_items unpacked_bytes
  unpacked-Implements zero p = nothing-Implements
  unpacked-Implements (suc left) p =
      seq-Implements (then_bytes (field_tag field) (value field (item_at env m field p))) _
        (seq-Implements (field_tag field) _ (field_tag-Implements field)
          (implements (item_at env m field p)))
        (unpacked-Implements left ((p + field.data_size) % 2 ^ 64))

  packed_width :
      (c : ℕ)
      → ((p : ℕ) (bs : List ℕ) → value field p ≡ some bs → length bs ≡ c)
      → (left p : ℕ) (e : List ℕ) → packed_bytes env m value field left p ≡ some e
      → length e ≡ c * left
  unfolding packed_bytes
  packed_width c h zero p e q = ground (arith, q)
  packed_width c h (suc left) p e q =
      let (a, b, qa, qb, s) = then_bytes-some (value field p) _ e q in
      rw s (omega (arith, length-append a b, h p a qa, packed_width c h left _ b qb))

  module _ (count p : ℕ) (e : List ℕ) (sends : Sends (packed_items env m func field count p) e)
      (fits : length e < 2 ^ 63) where
    on_buffer :
        (s : OStream)
        → s.callback ≡ buf_write_callback
        → write_packed env m func field count p (length e) s
          ≡ packed_items env m func field count p s
    unfolding write_packed
    on_buffer s c =
        ap
          (λ x.
            (if is_null x then pb_write [] (length e) else packed_items env m func field count p) s)
          c

    write_packed-Sends : Sends (write_packed env m func field count p (length e)) e
    write_packed-Sends = record {
      sizes = λ s c room q. unfold write_packed pb_write in ground arith;
      writes = λ s c room n q. on_buffer s c ∙ sends.writes s c room n q;
      overflows = λ s c w o n l q. rw (on_buffer s c) (sends.overflows s c w o n l q);
    }

    -- The size that is announced is the size of what follows.
    announced :
        HasWidth value field ltype_fixed32 4
        → HasWidth value field ltype_fixed64 8
        → packed_bytes env m value field count p ≡ some e
        → (k : ℕ → Encoder) → with_packed_size env m func field count p k ≡ k (length e)
    unfolding with_packed_size
    announced h4 h8 q k =
        on (Bool-cases (ltype field.type == ltype_fixed32))
          (Bool-cases (ltype field.type == ltype_fixed64))
      where
        measured_items :
            after_items env m (packed_items env m func field count p pb_ostream_sizing) k
            ≡ k (length e)
        measured_items =
            let (t, sized, c) =
              sizing (packed_items env m func field count p) e sends (omega arith) in
            ap (λ r. after_items env m r k) sized ∙ ap k c

        on :
            ((ltype field.type == ltype_fixed32) ≡ true)
              ⊎ ((ltype field.type == ltype_fixed32) ≡ false)
            → ((ltype field.type == ltype_fixed64) ≡ true)
              ⊎ ((ltype field.type == ltype_fixed64) ≡ false)
            → with_packed_size env m func field count p k ≡ k (length e)
        on (inl a) b = rw a (ap k (omega (arith, packed_width 4 (h4 a) count p e q)))
        on (inr a) (inl b) = rw (a, b) (ap k (omega (arith, packed_width 8 (h8 b) count p e q)))
        on (inr a) (inr b) = rw (a, b) measured_items

  packed_part :
      (count p : ℕ) (w : Wire)
      → HasWidth value field ltype_fixed32 4
      → HasWidth value field ltype_fixed64 8
      → packed_bytes env m value field count p ≡ w
      → Implements
          (with_packed_size env m func field count p
            (λ size. pb_encode_varint size >> write_packed env m func field count p size))
          (of_bytes w prefixed)
  unfolding prefixed
  packed_part count p none h4 h8 q = none-Implements
  packed_part count p (some e) h4 h8 q = guard-Implements (ltb (length e) (2 ^ 63)) λ l.
      let fits = ltb→lt (length e) (2 ^ 63) l in
      let sends = packed-Implements count p e q in
      rw
        (announced count p e sends fits h4 h8 q
          (λ size. pb_encode_varint size >> write_packed env m func field count p size))
        (seq-Emits (Emits-Sends (pb_encode_varint-Emits (length e) (omega arith)))
          (write_packed-Sends count p e sends fits))

  pub array-Implements :
      HasWidth value field ltype_fixed32 4
      → HasWidth value field ltype_fixed64 8
      → (p count : ℕ)
      → Implements (encode_array env m func field p count) (array_bytes env m value field p count)
  unfolding encode_array array_bytes
  array-Implements h4 h8 p count =
      if-Implements (count == 0) (λ _. nothing-Implements)
        λ _.
          if-Implements (not (atype field.type == atype_pointer) && ltb field.array_size count)
            (λ _. none-Implements)
            λ _.
              if-Implements (leb (ltype field.type) ltype_last_packable)
                (λ _.
                  seq-Implements (tag_bytes (some wt_string) field.tag) _
                    (tag-Implements wt_string field.tag)
                    (packed_part count p (packed_bytes env m value field count p) h4 h8 refl))
                (λ _. unpacked-Implements count p)
