-- ===== src/Nanopb/MessageEncoder.antt =====
-- nanopb's pb_encode.c: the encoding of arrays, of fields of every kind, and of whole messages.
-- `env` says what the addresses of tables and functions stand for, and `m` is the memory with the
-- message, which encoding does not change.
pub mod Wire
pub mod Implements
pub mod Values
pub mod Arrays
pub mod Fields
pub mod Refines
pub mod Outcomes
use app_card.Base.{
  ℕ, zero, suc, ◌+◌, ◌*◌, ◌%◌, ◌^◌, Bool, true, false, not, ◌&&◌, ◌||◌, Option, none, some, List,
  [], ◌∷◌, length, get_elem?, ◌==◌, ltb, leb, if◌then◌else◌, Run, ok, failed, fault, stuck,
  and_then, ◌>>◌,
}
use app_card.Nanopb.Pb.{
  ErrMsg, PbField, set_error, atype, htype, ltype, atype_static, atype_pointer, atype_callback,
  htype_required, htype_optional, htype_repeated, ltype_bool, ltype_varint, ltype_uvarint,
  ltype_svarint, ltype_fixed32, ltype_fixed64, ltype_last_packable, ltype_bytes, ltype_string,
  ltype_submessage, ltype_extension, ltype_fixed_length_bytes, wt_string, add_ssize,
  invalid_field_type, missing_required_field, array_max_size_exceeded, callback_error,
  submsg_size_changed, invalid_field_descriptor, stream_full,
}
use app_card.Nanopb.Memory.{Memory, load}
use app_card.Nanopb.OStream.{
  OStream, Encoder, return_error, is_null, pb_write, pb_ostream_sizing, pb_encode_varint,
  pb_encode_tag, pb_encode_tag_for_field,
}
use app_card.Nanopb.FieldIter.{FieldIter, pb_field_iter_begin, pb_field_iter_next}
use app_card.Nanopb.Encoders.{
  safe_read_bool, pb_enc_bool, pb_enc_varint, pb_enc_uvarint, pb_enc_svarint, pb_enc_fixed32,
  pb_enc_fixed64, pb_enc_bytes, pb_enc_string, pb_enc_fixed_length_bytes,
}
use app_card.Nanopb.Environment.{
  Environment, load_ptr, callback_funcs, callback_arg, extension_type, extension_dest_at,
  extension_dest, extension_next, type_encode, type_arg,
}
use mathlib.Core.Option
use app_card.Nanopb.Default.{uninitialised, pb_check_proto3_default_value}

-- What a function encodes: a field and the address of its value.
abbrev pub FieldEncoder : Type 0
FieldEncoder = PbField → ℕ → Encoder

-- The end of `pb_encode_submessage`: the stream takes over what its substream wrote.
unfoldable pub take_written :
    ℕ → OStream → Run OStream (Unit {0}) (Unit {0}) → Run OStream (Unit {0}) (Unit {0})
take_written size s (ok a t) =
    let s' : OStream = record s {
      bytes_written = (s.bytes_written + t.bytes_written) % 2 ^ 64;
      state = t.state;
      errmsg = t.errmsg;
    } in
    if t.bytes_written == size then ok tt s' else return_error submsg_size_changed s'
take_written size s (failed e t) =
    let s' : OStream = record s {
      bytes_written = (s.bytes_written + t.bytes_written) % 2 ^ 64;
      state = t.state;
      errmsg = t.errmsg;
    } in
    if t.bytes_written == size then failed tt s' else return_error submsg_size_changed s'
take_written size s fault = fault
take_written size s stuck = stuck

-- The second pass, from the check of the callback on.
unfoldable pub write_submessage : Encoder → ℕ → Encoder
unfolding take_written
write_submessage encode size s =
    if is_null s.callback
    then pb_write [] size s
    else if ltb s.max_size ((s.bytes_written + size) % 2 ^ 64)
    then return_error stream_full s
    else take_written size s
        (encode (record s { max_size = size; bytes_written = 0; errmsg = none }))

abbrev pub after_sizing : Run OStream (Unit {0}) (Unit {0}) → (ℕ → Encoder) → Encoder
after_sizing (ok a t) k s = k t.bytes_written s
after_sizing (failed e t) k s = failed tt (record s { errmsg = t.errmsg })
after_sizing fault k s = fault
after_sizing stuck k s = stuck

-- `encode` is `pb_encode` of the message.
unfoldable pub pb_encode_submessage : Encoder → Encoder
unfolding write_submessage
pb_encode_submessage encode =
    after_sizing (encode pb_ostream_sizing)
      λ size. pb_encode_varint size >> write_submessage encode size

module _ (env : Environment) (m : Memory) where
  -- `message` is `pb_encode`, by a table and the address of a structure.
  unfoldable pub pb_enc_submessage : (List PbField → ℕ → Encoder) → FieldEncoder
  pb_enc_submessage message field src =
      if field.ptr == 0
      then return_error invalid_field_descriptor
      else pb_encode_submessage (message (env.tables field.ptr) src)

  -- PB_ENCODERS, called at an index. There is no function for extensions, and none behind the last.
  unfoldable pub pb_encoders : (List PbField → ℕ → Encoder) → ℕ → FieldEncoder
  unfolding pb_enc_submessage
  pb_encoders message lt field src =
      if lt == ltype_bool
      then pb_enc_bool field m src
      else if lt == ltype_varint
      then pb_enc_varint field m src
      else if lt == ltype_uvarint
      then pb_enc_uvarint field m src
      else if lt == ltype_svarint
      then pb_enc_svarint field m src
      else if lt == ltype_fixed32
      then pb_enc_fixed32 field m src
      else if lt == ltype_fixed64
      then pb_enc_fixed64 field m src
      else if lt == ltype_bytes
      then pb_enc_bytes field m src
      else if lt == ltype_string
      then pb_enc_string field m src
      else if lt == ltype_submessage
      then pb_enc_submessage message field src
      else if lt == ltype_fixed_length_bytes
      then pb_enc_fixed_length_bytes field m src
      else (λ s. fault)

  -- The loops of `encode_array` over the items, with so many left and the next at `p`.
  unfoldable pub packed_items : FieldEncoder → PbField → ℕ → ℕ → Encoder
  packed_items func field zero p = ok tt
  packed_items func field (suc left) p =
      func field p >> packed_items func field left ((p + field.data_size) % 2 ^ 64)

  -- Where the item is: entries for strings and bytes of pointer arrays are pointers.
  abbrev pub item_at : PbField → ℕ → ℕ
  item_at field p =
      if atype field.type == atype_pointer
        && (ltype field.type == ltype_string || ltype field.type == ltype_bytes)
      then load_ptr m p
      else p

  unfoldable pub unpacked_items : FieldEncoder → PbField → ℕ → ℕ → Encoder
  unpacked_items func field zero p = ok tt
  unpacked_items func field (suc left) p =
      pb_encode_tag_for_field field
      >> func field (item_at field p)
      >> unpacked_items func field left ((p + field.data_size) % 2 ^ 64)

  -- The failure of an item in the sizing pass leaves no message in the stream.
  abbrev pub after_items : Run OStream (Unit {0}) (Unit {0}) → (ℕ → Encoder) → Encoder
  after_items (ok a t) k s = k t.bytes_written s
  after_items (failed e t) k s = failed tt s
  after_items fault k s = fault
  after_items stuck k s = stuck

  -- The total size of a packed array.
  unfoldable pub with_packed_size : FieldEncoder → PbField → ℕ → ℕ → (ℕ → Encoder) → Encoder
  unfolding packed_items
  with_packed_size func field count p k =
      if ltype field.type == ltype_fixed32
      then k (4 * count % 2 ^ 64)
      else if ltype field.type == ltype_fixed64
      then k (8 * count % 2 ^ 64)
      else after_items (packed_items func field count p pb_ostream_sizing) k

  unfoldable pub write_packed : FieldEncoder → PbField → ℕ → ℕ → ℕ → Encoder
  unfolding packed_items
  write_packed func field count p size s =
      (if is_null s.callback then pb_write [] size else packed_items func field count p) s

  unfoldable pub encode_array : FieldEncoder → PbField → ℕ → ℕ → Encoder
  unfolding with_packed_size write_packed unpacked_items
  encode_array func field p_data count =
      if count == 0
      then ok tt
      else if not (atype field.type == atype_pointer) && ltb field.array_size count
      then return_error array_max_size_exceeded
      else if leb (ltype field.type) ltype_last_packable
      then pb_encode_tag wt_string field.tag
        >> with_packed_size func field count p_data
            (λ size. pb_encode_varint size >> write_packed func field count p_data size)
      else unpacked_items func field count p_data

  -- A tag and the value.
  unfoldable pub tagged : FieldEncoder → PbField → ℕ → Encoder
  tagged func field p = pb_encode_tag_for_field field >> func field p

  -- `implicit_has` before the pointer is followed, where it is the field's presence.
  abbrev pub implicit_has : ℕ → PbField → ℕ → Option Bool
  implicit_has depth field p_data =
      if not (field.size_offset == 0)
      then some false
      else if htype field.type == htype_optional
      then Option.map not (pb_check_proto3_default_value env m depth field p_data)
      else some true

  -- The switch on the field's repetition. `p_size` points to the presence or the count in the
  -- message if `has_size`, and to the local `implicit` if not.
  unfoldable pub encode_present : FieldEncoder → PbField → Bool → ℕ → Bool → ℕ → Encoder
  unfolding tagged encode_array
  encode_present func field has_size p_size implicit p_data =
      let ht = htype field.type in
      if ht == htype_required
      then (if p_data == 0 then return_error missing_required_field else tagged func field p_data)
      else if ht == htype_optional
      then (if (if has_size then safe_read_bool m p_size else implicit)
          then tagged func field p_data
          else ok tt)
      else if ht == htype_repeated
      then encode_array func field p_data (if has_size then load 4 m p_size else field.array_size)
      else if has_size
      then (if load 4 m p_size == field.tag then tagged func field p_data else ok tt)
      else (λ s. fault)

  abbrev pub with_answer : Option Bool → (Bool → Encoder) → Encoder
  with_answer none k s = stuck
  with_answer (some b) k s = k b s

  unfoldable pub encode_basic_field : (List PbField → ℕ → Encoder) → ℕ → PbField → ℕ → Encoder
  unfolding pb_encoders encode_present
  encode_basic_field message depth field p_data =
      with_answer (implicit_has depth field p_data) λ implicit.
        let func = pb_encoders message (ltype field.type) in
        let has_size = not (field.size_offset == 0) in
        let p_size = add_ssize p_data field.size_offset in
        if atype field.type == atype_pointer
        then encode_present func field has_size p_size (not (load_ptr m p_data == 0))
            (load_ptr m p_data)
        else encode_present func field has_size p_size implicit p_data

  abbrev pub or_callback_error :
      Run OStream (Unit {0}) (Unit {0}) → Run OStream (Unit {0}) (Unit {0})
  or_callback_error (ok a s) = ok a s
  or_callback_error (failed e s) = return_error callback_error s
  or_callback_error fault = fault
  or_callback_error stuck = stuck

  unfoldable pub encode_callback_field : PbField → ℕ → Encoder
  encode_callback_field field p_data = if callback_funcs m p_data == 0 then ok tt else (λ s.
      or_callback_error (env.encode (callback_funcs m p_data) field (callback_arg p_data) s))

  unfoldable pub encode_field : (List PbField → ℕ → Encoder) → ℕ → PbField → ℕ → Encoder
  unfolding encode_basic_field encode_callback_field
  encode_field message depth field p_data =
      let at = atype field.type in
      if at == atype_static || at == atype_pointer
      then encode_basic_field message depth field p_data
      else if at == atype_callback
      then encode_callback_field field p_data
      else return_error invalid_field_type

  abbrev pub with_field : Option PbField → (PbField → Encoder) → Encoder
  with_field none k s = fault
  with_field (some f) k s = k f s

  unfoldable pub default_extension_encoder : (List PbField → ℕ → Encoder) → ℕ → ℕ → Encoder
  unfolding encode_field
  default_extension_encoder message depth extension =
      with_field (get_elem? (env.tables (type_arg m (extension_type m extension))) 0) λ field.
        encode_field message depth field (
          if atype field.type == atype_pointer
          then extension_dest_at extension
          else extension_dest m extension)

  abbrev pub encode_extension : (List PbField → ℕ → Encoder) → ℕ → ℕ → Encoder
  encode_extension message depth extension =
      let function = type_encode m (extension_type m extension) in
      if function == 0
      then default_extension_encoder message depth extension
      else env.encode_extension function extension

  -- The loop over the list of extensions. The fuel is its length.
  unfoldable pub extension_loop : (List PbField → ℕ → Encoder) → ℕ → ℕ → ℕ → Encoder
  unfolding default_extension_encoder
  extension_loop message depth zero extension s = if extension == 0 then ok tt s else stuck
  extension_loop message depth (suc links) extension s =
      (if extension == 0
          then ok tt
          else (encode_extension message depth extension
              >> extension_loop message depth links (extension_next m extension)))
        s

  unfoldable pub encode_extension_field : (List PbField → ℕ → Encoder) → ℕ → ℕ → ℕ → Encoder
  unfolding extension_loop
  encode_extension_field message depth links p_data =
      extension_loop message depth links (load_ptr m p_data)

  abbrev pub encode_current : (List PbField → ℕ → Encoder) → ℕ → ℕ → PbField → ℕ → Encoder
  encode_current message depth links field p_data =
      if ltype field.type == ltype_extension
      then encode_extension_field message depth links p_data
      else encode_field message depth field p_data

  abbrev pub while_next : Run FieldIter (Unit {0}) (Unit {0}) → (FieldIter → Encoder) → Encoder
  while_next (ok a iter) k s = k iter s
  while_next (failed e iter) k s = ok tt s
  while_next fault k s = fault
  while_next stuck k s = stuck

  -- The loop of `pb_encode`, with a round for each entry of the table.
  unfoldable pub encode_loop : (PbField → ℕ → Encoder) → ℕ → FieldIter → Encoder
  encode_loop encode zero iter s = stuck
  encode_loop encode (suc fuel) iter s =
      (with_field (get_elem? iter.start iter.pos) (λ field. encode field iter.p_data)
          >> while_next (pb_field_iter_next iter) (encode_loop encode fuel))
        s

  -- Messages are nested less than `depth` deep, and lists of extensions have at most `links`.
  unfoldable pub pb_encode : ℕ → ℕ → List PbField → ℕ → Encoder
  unfolding encode_loop encode_field encode_extension_field
  pb_encode zero links fields src_struct s = stuck
  pb_encode (suc depth) links fields src_struct s =
      while_next (pb_field_iter_begin fields src_struct uninitialised)
        (encode_loop (encode_current (pb_encode depth links) (suc depth) links) (length fields)) s

  unfoldable pub pb_encode_delimited : ℕ → ℕ → List PbField → ℕ → Encoder
  unfolding pb_encode
  pb_encode_delimited depth links fields src_struct =
      pb_encode_submessage (pb_encode depth links fields src_struct)

  unfoldable pub pb_encode_nullterminated : ℕ → ℕ → List PbField → ℕ → Encoder
  unfolding pb_encode
  pb_encode_nullterminated depth links fields src_struct =
      pb_encode depth links fields src_struct >> pb_write (0 ∷ []) 1

  -- The value is the size that is stored, and the stream is the local one.
  unfoldable pub pb_get_encoded_size : ℕ → ℕ → List PbField → ℕ → Run OStream (Unit {0}) ℕ
  unfolding pb_encode
  pb_get_encoded_size depth links fields src_struct =
      and_then (pb_encode depth links fields src_struct pb_ostream_sizing)
        λ a t. ok t.bytes_written t
