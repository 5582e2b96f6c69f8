-- ===== src/Nanopb/MessageEncoder/Wire.antt =====
-- The wire format of a message in memory, without streams: `none` where the encoder has nothing
-- to promise, such as a missing field, an invalid descriptor or a size that does not fit.
use app_card.Base.{
  ℕ, zero, suc, ◌+◌, ◌-◌, ◌%◌, ◌^◌, Bool, not, ◌&&◌, ◌||◌, Option, none, some, List, [], ◌∷◌, ◌++◌,
  length, get_elem?, ◌==◌, ltb, leb, if◌then◌else◌,
}
use app_card.Nanopb.Pb.{
  PbField, atype, htype, ltype, atype_static, atype_pointer, atype_callback, htype_required,
  htype_optional, htype_repeated, ltype_bool, ltype_varint, ltype_uvarint, ltype_svarint,
  ltype_fixed32, ltype_fixed64, ltype_last_packable, ltype_bytes, ltype_string, ltype_submessage,
  ltype_extension, ltype_fixed_length_bytes, wt_string, add_ssize,
}
use app_card.Nanopb.Memory.{Memory, load, load_bytes, le_bytes, sign_extend}
use app_card.Nanopb.OStream.{wire_type_of}
use app_card.Nanopb.OStream.Varint.{varint, zigzag, tag_number}
use app_card.Nanopb.FieldIter.{FieldIter, begun, advanced}
use app_card.Nanopb.Encoders.{safe_read_bool, int_size, string_size}
use app_card.Nanopb.Environment.{
  Environment, load_ptr, callback_funcs, callback_arg, extension_type, extension_dest_at,
  extension_dest, extension_next, type_encode, type_arg,
}
use app_card.Nanopb.MessageEncoder.{item_at, implicit_has}

abbrev pub Wire : Type 0
Wire = Option (List ℕ)

abbrev pub then_bytes : Wire → Wire → Wire
then_bytes none v = none
then_bytes (some a) none = none
then_bytes (some a) (some b) = some (a ++ b)

abbrev pub of_bytes : Wire → (List ℕ → Wire) → Wire
of_bytes none k = none
of_bytes (some bs) k = k bs

-- A length and the bytes, as many as an object can have.
unfoldable pub prefixed : List ℕ → Wire
prefixed bs = if ltb (length bs) (2 ^ 63) then some (varint (length bs) ++ bs) else none

unfoldable pub tag_bytes : Option ℕ → ℕ → Wire
tag_bytes none tag = none
tag_bytes (some wiretype) tag =
    if ltb wiretype 8 && ltb tag (2 ^ 32) then some (varint (tag_number wiretype tag)) else none

abbrev pub field_tag : PbField → Wire
field_tag field = tag_bytes (wire_type_of (ltype field.type)) field.tag

abbrev pub int_bytes : Option ℕ → (ℕ → List ℕ) → Wire
int_bytes none k = none
int_bytes (some n) k = some (k n)

-- What the functions of the user write: by the address of the function.
pub record UserWire : Type 0 where
  pub callback : ℕ → PbField → ℕ → Wire
  pub extension : ℕ → ℕ → Wire

module _ (env : Environment) (m : Memory) where
  -- A value of each type, `message` being the format of a submessage.
  unfoldable pub value_bytes : (List PbField → ℕ → Wire) → ℕ → PbField → ℕ → Wire
  value_bytes message lt field src =
      let n = field.data_size in
      if lt == ltype_bool
      then some (varint (if safe_read_bool m src then 1 else 0))
      else if lt == ltype_varint
      then int_bytes (int_size n) (λ k. varint (sign_extend k (load k m src)))
      else if lt == ltype_uvarint
      then int_bytes (int_size n) (λ k. varint (load k m src))
      else if lt == ltype_svarint
      then int_bytes (int_size n) (λ k. varint (zigzag (sign_extend k (load k m src))))
      else if lt == ltype_fixed32
      then some (le_bytes 4 (load 4 m src))
      else if lt == ltype_fixed64
      then some (le_bytes 8 (load 8 m src))
      else if lt == ltype_bytes
      then (if src == 0
          then prefixed []
          else if atype field.type == atype_static && ltb n (load 4 m src + 4)
          then none
          else prefixed (load_bytes (load 4 m src) m (src + 4)))
      else if lt == ltype_string
      then (let max_size = if atype field.type == atype_pointer then 2 ^ 64 - 1 else n in
          prefixed (load_bytes (if src == 0 then 0 else string_size max_size m src) m src))
      else if lt == ltype_submessage
      then (if field.ptr == 0 then none else of_bytes (message (env.tables field.ptr) src) prefixed)
      else if lt == ltype_fixed_length_bytes
      then prefixed (load_bytes n m src)
      else none

  -- The values of an array, and the same with a tag in front of each.
  unfoldable pub packed_bytes : (PbField → ℕ → Wire) → PbField → ℕ → ℕ → Wire
  packed_bytes value field zero p = some []
  packed_bytes value field (suc left) p =
      then_bytes (value field p) (packed_bytes value field left ((p + field.data_size) % 2 ^ 64))

  unfoldable pub unpacked_bytes : (PbField → ℕ → Wire) → PbField → ℕ → ℕ → Wire
  unpacked_bytes value field zero p = some []
  unpacked_bytes value field (suc left) p =
      then_bytes (then_bytes (field_tag field) (value field (item_at env m field p)))
        (unpacked_bytes value field left ((p + field.data_size) % 2 ^ 64))

  unfoldable pub array_bytes : (PbField → ℕ → Wire) → PbField → ℕ → ℕ → Wire
  unfolding packed_bytes unpacked_bytes
  array_bytes value field p_data count =
      if count == 0
      then some []
      else if not (atype field.type == atype_pointer) && ltb field.array_size count
      then none
      else if leb (ltype field.type) ltype_last_packable
      then then_bytes (tag_bytes (some wt_string) field.tag)
          (of_bytes (packed_bytes value field count p_data) prefixed)
      else unpacked_bytes value field count p_data

  abbrev pub tagged_bytes : (PbField → ℕ → Wire) → PbField → ℕ → Wire
  tagged_bytes value field p = then_bytes (field_tag field) (value field p)

  unfoldable pub present_bytes : (PbField → ℕ → Wire) → PbField → Bool → ℕ → Bool → ℕ → Wire
  unfolding array_bytes
  present_bytes value field has_size p_size implicit p_data =
      let ht = htype field.type in
      if ht == htype_required
      then (if p_data == 0 then none else tagged_bytes value field p_data)
      else if ht == htype_optional
      then (if (if has_size then safe_read_bool m p_size else implicit)
          then tagged_bytes value field p_data
          else some [])
      else if ht == htype_repeated
      then array_bytes value field p_data (if has_size then load 4 m p_size else field.array_size)
      else if has_size
      then (if load 4 m p_size == field.tag then tagged_bytes value field p_data else some [])
      else none

  abbrev pub with_answer : Option Bool → (Bool → Wire) → Wire
  with_answer none k = none
  with_answer (some b) k = k b

  unfoldable pub basic_bytes : (List PbField → ℕ → Wire) → ℕ → PbField → ℕ → Wire
  unfolding value_bytes present_bytes
  basic_bytes message depth field p_data =
      with_answer (implicit_has env m depth field p_data) λ implicit.
        let value = value_bytes message (ltype field.type) in
        let has_size = not (field.size_offset == 0) in
        let p_size = add_ssize p_data field.size_offset in
        if atype field.type == atype_pointer
        then present_bytes value field has_size p_size (not (load_ptr m p_data == 0))
            (load_ptr m p_data)
        else present_bytes value field has_size p_size implicit p_data

  module _ (user : UserWire) where
    unfoldable pub field_bytes : (List PbField → ℕ → Wire) → ℕ → PbField → ℕ → Wire
    unfolding basic_bytes
    field_bytes message depth field p_data =
        let at = atype field.type in
        if at == atype_static || at == atype_pointer
        then basic_bytes message depth field p_data
        else if at == atype_callback
        then (if callback_funcs m p_data == 0
            then some []
            else user.callback (callback_funcs m p_data) field (callback_arg p_data))
        else none

    abbrev pub extension_field : (List PbField → ℕ → Wire) → ℕ → Option PbField → ℕ → Wire
    extension_field message depth none extension = none
    extension_field message depth (some field) extension = field_bytes message depth field (
        if atype field.type == atype_pointer
        then extension_dest_at extension
        else extension_dest m extension)

    abbrev pub extension_bytes : (List PbField → ℕ → Wire) → ℕ → ℕ → Wire
    extension_bytes message depth extension =
        let type = extension_type m extension in
        if type_encode m type == 0
        then extension_field message depth (get_elem? (env.tables (type_arg m type)) 0) extension
        else user.extension (type_encode m type) extension

    unfoldable pub extensions_bytes : (List PbField → ℕ → Wire) → ℕ → ℕ → ℕ → Wire
    unfolding field_bytes
    extensions_bytes message depth zero extension = if extension == 0 then some [] else none
    extensions_bytes message depth (suc links) extension =
        if extension == 0
        then some []
        else then_bytes (extension_bytes message depth extension)
            (extensions_bytes message depth links (extension_next m extension))

    abbrev pub entry_bytes : (List PbField → ℕ → Wire) → ℕ → ℕ → PbField → ℕ → Wire
    entry_bytes message depth links field p_data =
        if ltype field.type == ltype_extension
        then extensions_bytes message depth links (load_ptr m p_data)
        else field_bytes message depth field p_data

  -- The fields of a table up to its end, the first of them where the iterator is.
  unfoldable pub fields_bytes : (PbField → ℕ → Wire) → List PbField → FieldIter → Wire
  fields_bytes entry [] iter = none
  fields_bytes entry (f ∷ []) iter = none
  fields_bytes entry (f ∷ g ∷ rest) iter =
      let behind = fields_bytes entry (g ∷ rest) (advanced f g iter) in
      then_bytes (entry f iter.p_data) (if g.tag == 0 then some [] else behind)

  abbrev pub table_bytes : (PbField → ℕ → Wire) → List PbField → ℕ → Wire
  table_bytes entry [] src = none
  table_bytes entry (f ∷ rest) src =
      if f.tag == 0 then some [] else fields_bytes entry (f ∷ rest) (begun (f ∷ rest) src f)

  unfoldable pub message_bytes : UserWire → ℕ → ℕ → List PbField → ℕ → Wire
  unfolding fields_bytes field_bytes extensions_bytes
  message_bytes user zero links fields src = none
  message_bytes user (suc depth) links fields src =
      table_bytes (entry_bytes user (message_bytes user depth links) (suc depth) links) fields src
