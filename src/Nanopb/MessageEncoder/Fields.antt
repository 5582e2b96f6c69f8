-- ===== src/Nanopb/MessageEncoder/Fields.antt =====
-- `encode_field` and `encode_extension_field` implement the wire format of fields.
use app_card.Base.{
  ℕ, zero, suc, ◌≡◌, refl, ap, Bool, not, ◌||◌, Option, none, some, List, [], length, ◌==◌, ==_iff,
  if◌then◌else◌, get_elem?, Run, ok, stuck, arith,
}
use app_card.Nanopb.Pb.{
  PbField, atype, htype, ltype, atype_static, atype_pointer, atype_callback, htype_required,
  htype_optional, htype_repeated, ltype_fixed32, ltype_fixed64, ltype_extension, add_ssize,
  set_error, callback_error,
}
use app_card.Nanopb.Memory.{Memory, load}
use app_card.Nanopb.Memory.Laws.{length-le_bytes}
use app_card.Nanopb.OStream.{OStream, Encoder}
use app_card.Nanopb.OStream.Contract.{Sends, IsFull}
use app_card.Nanopb.Encoders.{safe_read_bool}
use app_card.Nanopb.Encoders.Emit.{IsBytes}
use app_card.Nanopb.Environment.{
  Environment, load_ptr, callback_funcs, callback_arg, extension_type, extension_dest_at,
  extension_dest, extension_next, type_encode, type_arg,
}
use app_card.Nanopb.MessageEncoder.{
  FieldEncoder, pb_encoders, tagged, implicit_has, encode_present, encode_basic_field,
  or_callback_error, encode_callback_field, encode_field, with_field, default_extension_encoder,
  encode_extension, extension_loop, encode_extension_field, encode_current,
}
use app_card.Nanopb.MessageEncoder as Code
use mathlib.Core.Path.{fun_ext}
use app_card.Nanopb.MessageEncoder.Wire.{
  Wire, UserWire, field_tag, value_bytes, tagged_bytes, present_bytes, basic_bytes, field_bytes,
  extension_field, extension_bytes, extensions_bytes, entry_bytes,
}
use app_card.Nanopb.MessageEncoder.Wire as Format
use app_card.Nanopb.MessageEncoder.Implements.{
  Implements, none-Implements, nothing-Implements, if-Implements, seq-Implements,
  field_tag-Implements,
}
use app_card.Nanopb.MessageEncoder.Values.{value-Implements}
use app_card.Nanopb.MessageEncoder.Arrays.{array-Implements}

-- The functions of the user send what they are said to write.
pub record IsFaithful (env : Environment) (user : UserWire) : Type 0 where
  pub callback :
      (function : ℕ) (field : PbField) (arg : ℕ) (bs : List ℕ)
      → user.callback function field arg ≡ some bs
      → Sends (env.encode function field arg) bs
  pub extension :
      (function extension : ℕ) (bs : List ℕ)
      → user.extension function extension ≡ some bs
      → Sends (env.encode_extension function extension) bs

module _ (env : Environment) (m : Memory) (bytes : IsBytes m) (message : List PbField → ℕ → Encoder)
    (format : List PbField → ℕ → Wire)
    (implements : (fields : List PbField) (p : ℕ)
      → Implements (message fields p) (format fields p)) where
  width4 :
      (lt : ℕ) (field : PbField) (p : ℕ) (bs : List ℕ)
      → lt ≡ ltype_fixed32
      → value_bytes env m format lt field p ≡ some bs
      → length bs ≡ 4
  unfolding value_bytes
  width4 lt field p bs h e = ground (arith, rw h at e, length-le_bytes 4 (load 4 m p))

  width8 :
      (lt : ℕ) (field : PbField) (p : ℕ) (bs : List ℕ)
      → lt ≡ ltype_fixed64
      → value_bytes env m format lt field p ≡ some bs
      → length bs ≡ 8
  unfolding value_bytes
  width8 lt field p bs h e = ground (arith, rw h at e, length-le_bytes 8 (load 8 m p))

  module _ (field : PbField) where
    abbrev func : FieldEncoder
    func = pb_encoders env m message (ltype field.type)

    abbrev value : PbField → ℕ → Wire
    value = value_bytes env m format (ltype field.type)

    func-Implements : (p : ℕ) → Implements (func field p) (value field p)
    func-Implements p =
        value-Implements m bytes field p env message format implements (ltype field.type)

    tagged-Implements :
        (p : ℕ) → Implements (tagged env m func field p) (tagged_bytes env m value field p)
    unfolding tagged
    tagged-Implements p =
        seq-Implements (field_tag field) (value field p) (field_tag-Implements field)
          (func-Implements p)

    present-Implements :
        (has_size : Bool) (p_size : ℕ) (implicit : Bool) (p_data : ℕ)
        → Implements
            (encode_present env m func field has_size p_size implicit p_data)
            (present_bytes env m value field has_size p_size implicit p_data)
    unfolding encode_present present_bytes
    present-Implements has_size p_size implicit p_data =
        if-Implements (htype field.type == htype_required)
          (λ _. if-Implements (p_data == 0) (λ _. none-Implements) (λ _. tagged-Implements p_data))
          λ _.
            if-Implements (htype field.type == htype_optional)
              (λ _.
                if-Implements (if has_size then safe_read_bool m p_size else implicit)
                  (λ _. tagged-Implements p_data) (λ _. nothing-Implements))
              λ _.
                if-Implements (htype field.type == htype_repeated)
                  (λ _.
                    array-Implements env m func value field func-Implements
                      (λ h p bs. width4 (ltype field.type) field p bs ((==_iff _ _).0 h))
                      (λ h p bs. width8 (ltype field.type) field p bs ((==_iff _ _).0 h)) p_data
                      (if has_size then load 4 m p_size else field.array_size))
                  λ _.
                    if-Implements has_size
                      (λ _.
                        if-Implements (load 4 m p_size == field.tag) (λ _. tagged-Implements p_data)
                          (λ _. nothing-Implements))
                      (λ _. none-Implements)

    answer-Implements :
        (o : Option Bool) (f : Bool → Encoder) (w : Bool → Wire)
        → ((b : Bool) → Implements (f b) (w b))
        → Implements (Code.with_answer env m o f) (Format.with_answer env m o w)
    answer-Implements none f w h = none-Implements
    answer-Implements (some b) f w h = h b

    basic-Implements :
        (depth p_data : ℕ)
        → Implements
            (encode_basic_field env m message depth field p_data)
            (basic_bytes env m format depth field p_data)
    unfolding encode_basic_field basic_bytes
    basic-Implements depth p_data =
        let has_size = not (field.size_offset == 0) in
        let p_size = add_ssize p_data field.size_offset in
        answer-Implements (implicit_has env m depth field p_data) _ _ λ implicit.
          if-Implements (atype field.type == atype_pointer)
            (λ _.
              present-Implements has_size p_size (not (load_ptr m p_data == 0)) (load_ptr m p_data))
            (λ _. present-Implements has_size p_size implicit p_data)

  module _ (user : UserWire) (faithful : IsFaithful env user) where
    or_callback_error-Sends :
        (f : Encoder) (bs : List ℕ) → Sends f bs → Sends (λ s. or_callback_error env m (f s)) bs
    or_callback_error-Sends f bs h = record {
      sizes = λ s c room q. rw (h.sizes s c room q) refl;
      writes = λ s c room n q. rw (h.writes s c room n q) refl;
      overflows = λ s c w o n l q. or_error s (f s) (q.0) (h.overflows s c w o n l q);
    }
      where
        or_error :
            (s : OStream) (r : Run OStream (Unit {0}) (Unit {0}))
            → s.errmsg ≡ none
            → IsFull bs s r
            → IsFull bs s (or_callback_error env m r)
        or_error s r clean q =
            let t = q.after in
            record {
              after = record t { errmsg = set_error callback_error t.errmsg };
              front = q.front;
              back = q.back;
              splits = q.splits;
              result = ap (or_callback_error env m) q.result;
              message = ground (arith, q.message, clean);
              stored_front = q.stored_front;
              counted = q.counted;
              within = q.within;
            }

    callback-Implements :
        (field : PbField) (p_data : ℕ)
        → Implements (encode_callback_field env m field p_data) (
            if callback_funcs m p_data == 0
            then some []
            else user.callback (callback_funcs m p_data) field (callback_arg p_data))
    unfolding encode_callback_field
    callback-Implements field p_data =
        if-Implements (callback_funcs m p_data == 0) (λ _. nothing-Implements)
          λ _ bs e.
            or_callback_error-Sends
              (env.encode (callback_funcs m p_data) field (callback_arg p_data)) bs
              (faithful.callback (callback_funcs m p_data) field (callback_arg p_data) bs e)

    field-Implements :
        (depth : ℕ) (field : PbField) (p_data : ℕ)
        → Implements
            (encode_field env m message depth field p_data)
            (field_bytes env m user format depth field p_data)
    unfolding encode_field field_bytes
    field-Implements depth field p_data =
        let at = atype field.type in
        if-Implements (at == atype_static || at == atype_pointer)
          (λ _. basic-Implements field depth p_data)
          λ _.
            if-Implements (at == atype_callback) (λ _. callback-Implements field p_data)
              λ _. none-Implements

    default-Implements :
        (depth extension : ℕ) (field : Option PbField)
        → Implements
            (with_field env m field λ f. encode_field env m message depth f (
              if atype f.type == atype_pointer
              then extension_dest_at extension
              else extension_dest m extension))
            (extension_field env m user format depth field extension)
    default-Implements depth extension none = none-Implements
    default-Implements depth extension (some f) = field-Implements depth f _

    extension-Implements :
        (depth extension : ℕ)
        → Implements
            (encode_extension env m message depth extension)
            (extension_bytes env m user format depth extension)
    unfolding default_extension_encoder
    extension-Implements depth extension =
        let type = extension_type m extension in
        if-Implements (type_encode m type == 0)
          (λ _. default-Implements depth extension (get_elem? (env.tables (type_arg m type)) 0))
          (λ _. faithful.extension (type_encode m type) extension)

    extensions-Implements :
        (depth links extension : ℕ)
        → Implements
            (extension_loop env m message depth links extension)
            (extensions_bytes env m user format depth links extension)
    unfolding extension_loop extensions_bytes
    extensions-Implements depth zero extension =
        rw
          (fun_ext {f = extension_loop env m message depth zero extension}
            {g = if extension == 0 then ok tt else (λ s. stuck)} (λ s. ground arith))
          (if-Implements (extension == 0) (λ _. nothing-Implements) (λ _. none-Implements))
    extensions-Implements depth (suc links) extension =
        if-Implements (extension == 0) (λ _. nothing-Implements)
          λ _.
            seq-Implements (extension_bytes env m user format depth extension) _
              (extension-Implements depth extension)
              (extensions-Implements depth links (extension_next m extension))

    pub current-Implements :
        (depth links : ℕ) (field : PbField) (p_data : ℕ)
        → Implements
            (encode_current env m message depth links field p_data)
            (entry_bytes env m user format depth links field p_data)
    unfolding encode_extension_field
    current-Implements depth links field p_data =
        if-Implements (ltype field.type == ltype_extension)
          (λ _. extensions-Implements depth links (load_ptr m p_data))
          (λ _. field-Implements depth field p_data)
