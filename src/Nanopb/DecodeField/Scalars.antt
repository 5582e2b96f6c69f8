-- ===== src/Nanopb/DecodeField/Scalars.antt =====
-- The decoders of packable types take a byte at least and keep to the item, so that a packed static
-- array is safe on any bytes.
use app_card.Base.{
  ℕ, ◌+◌, ◌*◌, ◌^◌, ◌≤◌, ◌<◌, ◌≡◌, refl, ◌⊎◌, Bool, true, false, List, ◌==◌, ==_iff, leb,
  if◌then◌else◌, Run, ok, failed, fault, stuck, arith,
}
use app_card.Nanopb.Pb.{
  PbField, htype, ltype, htype_repeated, wt_string, ltype_bool, ltype_varint, ltype_uvarint,
  ltype_svarint, ltype_fixed32, ltype_fixed64, ltype_last_packable,
}
use app_card.Nanopb.Memory.{Memory, load, sign_extend}
use app_card.Nanopb.IStream.Safety.{IsReadable}
use app_card.Nanopb.Decoders.{
  Input, FieldDecoder, pb_dec_bool, pb_dec_varint, pb_dec_uvarint, pb_dec_svarint, narrowed,
  zero_extend,
}
use app_card.Nanopb.Decoders.Confined.{Within, same, write_byte}
use app_card.Nanopb.DecodeField.Arrays.{DecodesItem, Keeps, decode_packed-Keeps}
use app_card.Nanopb.DecodeField.Items.{pb_dec_fixed32-DecodesItem, pb_dec_fixed64-DecodesItem}
use app_card.Nanopb.Runtime.{Runtime, Effect}
use app_card.Nanopb.FieldIter.{FieldIter}
use app_card.Nanopb.DecodeField.{MessageDecoder, pb_decoders, decode_static_field}
use app_card.Nanopb.DecodeField.Integers.{
  pb_decode_varint-ReadsSome, pb_decode_varint32-ReadsSome, pb_decode_svarint-ReadsSome,
  store-Within, stored-DecodesItem, clamped-DecodesItem,
}

-- The items of a packable type have room for its numbers; those of an integer type of another size
-- than 1, 2, 4 and 8 bytes are refused.
pub record HasItems (f : PbField) : Type 0 where
  pub packable : leb (ltype f.type) ltype_last_packable ≡ true
  pub byte : 1 ≤ f.data_size
  pub fixed32 : ltype f.type ≡ ltype_fixed32 → 4 ≤ f.data_size
  pub fixed64 : ltype f.type ≡ ltype_fixed64 → 8 ≤ f.data_size

if-DecodesItem :
    (a n : ℕ) (s : Input) (b : Bool) (x y : FieldDecoder)
    → (b ≡ true → DecodesItem a n s (x s))
    → (b ≡ false → DecodesItem a n s (y s))
    → DecodesItem a n s ((if b then x else y) s)
if-DecodesItem a n s true x y h h' = h refl
if-DecodesItem a n s false x y h h' = h' refl

Within-larger : (a n k : ℕ) (m m' : Memory) → n ≤ k → Within a n m m' → Within a k m m'
Within-larger a n k m _ h same = same
Within-larger a n k m _ h (write_byte m' x b lo hi w) =
    write_byte m' x b lo (omega arith) (Within-larger a n k m m' h w)

larger_item :
    (a n k : ℕ) (s : Input) (r : Run Input (Unit {0}) (Unit {0}))
    → n ≤ k
    → DecodesItem a n s r
    → DecodesItem a k s r
larger_item a n k s (ok v t) h d = (d.0, d.1, Within-larger a n k s.memory t.memory h d.2)
larger_item a n k s (failed e t) h d = (d.0, Within-larger a n k s.memory t.memory h d.1)
larger_item a n k s fault h d = d
larger_item a n k s stuck h d = d

none_left :
    (lt : ℕ)
    → leb lt ltype_last_packable ≡ true
    → (lt == ltype_bool) ≡ false
    → (lt == ltype_varint) ≡ false
    → (lt == ltype_uvarint) ≡ false
    → (lt == ltype_svarint) ≡ false
    → (lt == ltype_fixed32) ≡ false
    → (lt == ltype_fixed64) ≡ false
    → ⊥
none_left lt h b v u z f g = ground arith

module _ (field : PbField) (a : ℕ) (s : Input) (h : IsReadable s.stream) where
  pb_dec_bool-DecodesItem :
      1 ≤ field.data_size → DecodesItem a field.data_size s (pb_dec_bool field a s)
  unfolding pb_dec_bool
  pb_dec_bool-DecodesItem size =
      stored-DecodesItem field.data_size a s _ _ (pb_decode_varint32-ReadsSome s.stream h)
        λ v t follows less. (follows, less, store-Within 1 field.data_size _ a s size)

  pb_dec_varint-DecodesItem : DecodesItem a field.data_size s (pb_dec_varint field a s)
  unfolding pb_dec_varint
  pb_dec_varint-DecodesItem =
      stored-DecodesItem field.data_size a s _ _ (pb_decode_varint-ReadsSome s.stream h)
        λ v t follows less.
          clamped-DecodesItem sign_extend (narrowed field.data_size v) a field.data_size s t follows
            less

  pb_dec_uvarint-DecodesItem : DecodesItem a field.data_size s (pb_dec_uvarint field a s)
  unfolding pb_dec_uvarint
  pb_dec_uvarint-DecodesItem =
      stored-DecodesItem field.data_size a s _ _ (pb_decode_varint-ReadsSome s.stream h)
        λ v t follows less. clamped-DecodesItem zero_extend v a field.data_size s t follows less

  pb_dec_svarint-DecodesItem : DecodesItem a field.data_size s (pb_dec_svarint field a s)
  unfolding pb_dec_svarint
  pb_dec_svarint-DecodesItem =
      stored-DecodesItem field.data_size a s _ _ (pb_decode_svarint-ReadsSome s.stream h)
        λ v t follows less. clamped-DecodesItem sign_extend v a field.data_size s t follows less

  -- PB_DECODERS at a packable type.
  pub pb_decoders-DecodesItem :
      (rt : Runtime) (message message_noinit : MessageDecoder)
      → HasItems field
      → DecodesItem a field.data_size s
          (pb_decoders rt message message_noinit (ltype field.type) field a s)
  unfolding pb_decoders
  pb_decoders-DecodesItem rt message message_noinit items =
      let n = field.data_size in
      if-DecodesItem a n s (ltype field.type == ltype_bool) _ _
        (λ _. pb_dec_bool-DecodesItem items.byte)
        λ b.
          if-DecodesItem a n s (ltype field.type == ltype_varint) _ _
            (λ _. pb_dec_varint-DecodesItem)
            λ v.
              if-DecodesItem a n s (ltype field.type == ltype_uvarint) _ _
                (λ _. pb_dec_uvarint-DecodesItem)
                λ u.
                  if-DecodesItem a n s (ltype field.type == ltype_svarint) _ _
                    (λ _. pb_dec_svarint-DecodesItem)
                    λ z.
                      if-DecodesItem a n s (ltype field.type == ltype_fixed32) _ _
                        (λ e.
                          larger_item a 4 n s _
                            (items.fixed32 ((==_iff (ltype field.type) ltype_fixed32).0 e))
                            (pb_dec_fixed32-DecodesItem field a s h))
                        λ f.
                          if-DecodesItem a n s (ltype field.type == ltype_fixed64) _ _
                            (λ e.
                              larger_item a 8 n s _
                                (items.fixed64 ((==_iff (ltype field.type) ltype_fixed64).0 e))
                                (pb_dec_fixed64-DecodesItem field a s h))
                            λ g. absurd (none_left (ltype field.type) items.packable b v u z f g)

-- A repeated field of a packable type with its array in the structure, smaller than 2 ^ 32 bytes, and
-- its count apart from it.
pub record IsPackedArray (f : PbField) (iter : FieldIter) : Type 0 where
  pub repeated : htype f.type ≡ htype_repeated
  pub items : HasItems f
  pub small : f.array_size * f.data_size < 2 ^ 32
  pub fits : iter.p_data + f.array_size * f.data_size < 2 ^ 64
  pub entries : f.array_size < 2 ^ 32
  pub apart :
      (iter.p_size + 4 ≤ iter.p_data) ⊎ (iter.p_data + f.array_size * f.data_size ≤ iter.p_size)

-- A repeated field of a packable type with its array in the structure, smaller than 2 ^ 32 bytes, and
-- its count apart from it and in range, on any bytes of a buffer stream whose buffer holds what
-- `bytes_left` promises: `decode_static_field` with the decoder of PB_DECODERS and the wire type of
-- a packed array returns without an access outside the buffer, and with success or failure the
-- count is in range and no byte was written to but those of the count and of the array. With
-- success it has taken bytes off the front of the stream.
pub decode_static_field-Keeps :
    (rt : Runtime) (defaults : List PbField → ℕ → Effect) (message message_noinit : MessageDecoder)
    (f : PbField) (iter : FieldIter) (s : Input)
    → IsPackedArray f iter
    → IsReadable s.stream
    → load 4 s.memory iter.p_size ≤ f.array_size
    → Keeps f iter s (
        decode_static_field rt defaults
          (pb_decoders rt message message_noinit (ltype f.type))
          wt_string
          f
          iter
          s)
unfolding decode_static_field
decode_static_field-Keeps rt defaults message message_noinit f iter s array readable count =
    rw (array.repeated, array.items.packable)
      (decode_packed-Keeps (pb_decoders rt message message_noinit (ltype f.type) f) f iter
        (record {
          decodes = λ a t h. pb_decoders-DecodesItem f a t h rt message message_noinit array.items;
          small = array.small;
          fits = array.fits;
          entries = array.entries;
          apart = array.apart;
        })
        s readable count)
