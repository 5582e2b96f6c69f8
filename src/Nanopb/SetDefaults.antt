-- ===== src/Nanopb/SetDefaults.antt =====
-- nanopb's pb_decode.c: default values for the fields of a message, before it is decoded.
pub mod Returns
pub mod Layout
pub mod Defaults
pub mod Kinds
pub mod Sets
use app_card.Base.{
  ℕ, zero, suc, not, ◌&&◌, ◌||◌, List, length, get_elem?, ◌==◌, if◌then◌else◌, Run, ok, stuck, ◌>>◌,
}
use app_card.Nanopb.Pb.{
  PbField, atype, htype, ltype, atype_static, atype_pointer, htype_optional, htype_repeated,
  htype_oneof, ltype_submessage, ltype_extension,
}
use app_card.Nanopb.Memory.{Memory, load_bytes, store_bytes, clear}
use app_card.Nanopb.FieldIter.{FieldIter, either_way, pb_field_iter_begin, pb_field_iter_next}
use app_card.Nanopb.Environment.{
  load_ptr, extension_type, extension_dest, extension_dest_at, extension_next, extension_found_at,
  type_arg,
}
use app_card.Nanopb.Default.{uninitialised}
use app_card.Nanopb.Runtime.{Runtime, Effect, change, assign, with_field, whatever, on_result}

-- The loop over the fields of a message, with a round for each entry of the table.
unfoldable pub each_field : (FieldIter → Effect) → ℕ → FieldIter → Effect
each_field visit zero iter m = stuck
each_field visit (suc fuel) iter m =
    (visit iter >> on_result (pb_field_iter_next iter) (each_field visit fuel) (λ _. ok tt)) m

unfoldable pub over_message : (FieldIter → Effect) → List PbField → ℕ → Effect
unfolding each_field
over_message visit fields dest_struct =
    on_result (pb_field_iter_begin fields dest_struct uninitialised)
      (each_field visit (length fields)) (λ _. ok tt)

-- The iterator that stands at the field of an extension.
abbrev pub at_extension : Memory → ℕ → PbField → FieldIter → FieldIter
at_extension m extension field iter = record iter {
  p_data =
      if atype field.type == atype_pointer
      then extension_dest_at extension
      else extension_dest m extension;
  p_size = extension_found_at extension;
}

module _ (rt : Runtime) where
  unfoldable pub iter_from_extension : Memory → ℕ → Run FieldIter (Unit {0}) (Unit {0})
  iter_from_extension m extension =
      let fields = rt.tables (type_arg m (extension_type m extension)) in
      either_way (pb_field_iter_begin fields (extension_dest m extension) uninitialised)
        (with_field (get_elem? fields 0) λ field iter. ok tt (at_extension m extension field iter))

  -- The loop over the extensions of a message, with what is done to an extension and then at its
  -- field. The fuel is the length of the list.
  unfoldable pub each_extension : (ℕ → Effect) → (FieldIter → Effect) → ℕ → ℕ → Effect
  unfolding iter_from_extension
  each_extension prepare visit zero ext m = if ext == 0 then ok tt m else stuck
  each_extension prepare visit (suc links) ext m =
      (if ext == 0
          then ok tt
          else (prepare ext
              >> (λ m'. whatever (iter_from_extension m' ext) visit m')
              >> (λ m'. each_extension prepare visit links (extension_next m' ext) m')))
        m

  -- `ext->found = false`
  abbrev pub not_found : ℕ → Effect
  not_found ext = assign 1 0 (extension_found_at ext)

  -- The value of a static field that is always initialised. `message` is
  -- `pb_message_set_to_defaults`.
  abbrev pub init_data : (List PbField → ℕ → Effect) → PbField → ℕ → Effect
  init_data message f p_data =
      if ltype f.type == ltype_submessage
      then message (rt.tables f.ptr) p_data
      else if not (f.ptr == 0)
      then change (λ m. store_bytes (load_bytes f.data_size m f.ptr) m p_data)
      else change (λ m. clear f.data_size m p_data)

  unfoldable pub default_static : (List PbField → ℕ → Effect) → PbField → FieldIter → Effect
  default_static message f iter =
      let ht = htype f.type in
      if ht == htype_optional && not (iter.p_size == iter.p_data)
      then assign 1 0 iter.p_size >> init_data message f iter.p_data
      else if ht == htype_repeated || ht == htype_oneof
      then assign 4 0 iter.p_size
      else init_data message f iter.p_data

  unfoldable pub default_pointer : PbField → FieldIter → Effect
  default_pointer f iter =
      let ht = htype f.type in
      assign 8 0 iter.p_data
      >> (if ht == htype_repeated || ht == htype_oneof then assign 4 0 iter.p_size else ok tt)

  -- Messages and extensions are nested less than `depth` deep, and lists of extensions have at most
  -- `links`. What is left is a callback, which is not overwritten.
  unfoldable pub pb_field_set_to_default : ℕ → ℕ → FieldIter → Effect
  unfolding each_extension default_static default_pointer over_message
  pb_field_set_to_default zero links iter m = stuck
  pb_field_set_to_default (suc depth) links iter m =
      with_field (get_elem? iter.start iter.pos)
        (λ f.
          if ltype f.type == ltype_extension
          then (λ m'.
              each_extension not_found (pb_field_set_to_default depth links) links
                (load_ptr m' iter.p_data) m')
          else if atype f.type == atype_static
          then default_static (over_message (pb_field_set_to_default depth links)) f iter
          else if atype f.type == atype_pointer
          then default_pointer f iter
          else ok tt)
        m

  unfoldable pub pb_message_set_to_defaults : ℕ → ℕ → List PbField → ℕ → Effect
  unfolding over_message pb_field_set_to_default
  pb_message_set_to_defaults depth links = over_message (pb_field_set_to_default depth links)
