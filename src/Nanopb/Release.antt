-- ===== src/Nanopb/Release.antt =====
-- nanopb's pb_decode.c: the release of what the fields of a message have allocated.
pub mod Returns
use app_card.Base.{
  ℕ, zero, suc, ◌+◌, ◌%◌, ◌^◌, not, ◌&&◌, ◌||◌, List, get_elem?, ◌==◌, ltb, if◌then◌else◌, ok,
  stuck, Cmd, ◌>>◌, pure,
}
use app_card.Nanopb.Pb.{
  PbField, atype, htype, ltype, atype_static, atype_callback, atype_pointer, htype_repeated,
  htype_oneof, ltype_bytes, ltype_string, ltype_submessage, ltype_extension, invalid_union_tag,
  iterator_error,
}
use app_card.Nanopb.Memory.{Memory, load}
use app_card.Nanopb.FieldIter.{FieldIter, pb_field_iter_find}
use app_card.Nanopb.Environment.{load_ptr}
use app_card.Nanopb.Decoders.{Input}
use app_card.Nanopb.Runtime.{Runtime, Effect, assign, on_memory, with_field, on_result, fail}
use app_card.Nanopb.SetDefaults.{over_message, each_extension}

module _ (rt : Runtime) where
  -- `pb_free(*(void**)p); *(void**)p = NULL;`
  abbrev pub free_at : ℕ → Effect
  free_at p = (λ m. ok tt (rt.free (load_ptr m p) m)) >> assign 8 0 p

  -- The loop over the submessages, with so many left and the next at `p`.
  unfoldable pub release_items : (ℕ → Effect) → PbField → ℕ → ℕ → Effect
  release_items message f zero p = ok tt
  release_items message f (suc left) p =
      message p >> release_items message f left ((p + f.data_size) % 2 ^ 64)

  -- The loop over the entries of a repeated string or bytes array.
  unfoldable pub release_entries : ℕ → ℕ → Effect
  release_entries zero p = ok tt
  release_entries (suc left) p = free_at p >> release_entries left ((p + 8) % 2 ^ 64)

  -- How many submessages a field has.
  abbrev pub submessage_count : PbField → FieldIter → Memory → ℕ
  submessage_count f iter m =
      let stored : ℕ =
        if atype f.type == atype_static && iter.p_size == iter.p_data
        then f.array_size
        else load 4 m iter.p_size in
      if not (htype f.type == htype_repeated)
      then 1
      else if atype f.type == atype_static && ltb f.array_size stored
      then f.array_size
      else stored

  -- `message` is `pb_release`.
  unfoldable pub release_submessages : (List PbField → ℕ → Effect) → PbField → FieldIter → Effect
  unfolding release_items
  release_submessages message f iter m =
      let item : ℕ =
        if atype f.type == atype_pointer then load_ptr m iter.p_data else iter.p_data in
      (if item == 0
          then ok tt
          else release_items (message (rt.tables f.ptr)) f (submessage_count f iter m) item)
        m

  unfoldable pub release_pointer : PbField → FieldIter → Effect
  unfolding release_entries
  release_pointer f iter =
      (if htype f.type == htype_repeated
          && (ltype f.type == ltype_string || ltype f.type == ltype_bytes)
        then (λ m. release_entries (load 4 m iter.p_size) (load_ptr m iter.p_data) m)
        else ok tt)
      >> (if htype f.type == htype_repeated then assign 4 0 iter.p_size else ok tt)
      >> free_at iter.p_data

  -- `message` is `pb_release`, and `field` is `pb_release_single_field` for the extensions.
  unfoldable pub release_contents :
      (List PbField → ℕ → Effect) → (FieldIter → Effect) → ℕ → PbField → FieldIter → Effect
  unfolding release_submessages release_pointer each_extension
  release_contents message field links f iter =
      (if ltype f.type == ltype_extension
        then (λ m. each_extension rt (λ ext. ok tt) field links (load_ptr m iter.p_data) m)
        else if ltype f.type == ltype_submessage && not (atype f.type == atype_callback)
        then release_submessages message f iter
        else ok tt)
      >> (if atype f.type == atype_pointer then release_pointer f iter else ok tt)

  abbrev pub release_table : (FieldIter → Effect) → List PbField → ℕ → Effect
  release_table field fields dest_struct =
      if dest_struct == 0 then ok tt else over_message field fields dest_struct

  -- Messages and extensions are nested less than `depth` deep, and lists of extensions have at most
  -- `links`.
  unfoldable pub pb_release_single_field : ℕ → ℕ → FieldIter → Effect
  unfolding release_contents over_message
  pb_release_single_field zero links iter m = stuck
  pb_release_single_field (suc depth) links iter m =
      with_field (get_elem? iter.start iter.pos)
        (λ f m'.
          (if htype f.type == htype_oneof && not (load 4 m' iter.p_size == f.tag)
              then ok tt
              else release_contents (release_table (pb_release_single_field depth links))
                  (pb_release_single_field depth links) links f iter)
            m')
        m

  unfoldable pub pb_release : ℕ → ℕ → List PbField → ℕ → Effect
  unfolding over_message pb_release_single_field
  pb_release depth links = release_table (pb_release_single_field depth links)

  -- The value is the iterator, which the searches move.
  unfoldable pub pb_release_union_field : ℕ → ℕ → FieldIter → Cmd Input (Unit {0}) FieldIter
  unfolding pb_release_single_field
  pb_release_union_field depth links iter = with_field (get_elem? iter.start iter.pos) λ f s.
      let old_tag = load 4 s.memory iter.p_size in
      let new_tag = f.tag in
      (if old_tag == 0 || old_tag == new_tag
          then pure iter
          else on_result (pb_field_iter_find old_tag iter)
              (λ old.
                on_memory (pb_release_single_field depth links old)
                >> on_result (pb_field_iter_find new_tag old) pure (λ _. fail iterator_error))
              (λ _. fail invalid_union_tag))
        s
