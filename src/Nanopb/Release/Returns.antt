-- ===== src/Nanopb/Release/Returns.antt =====
-- The release of a message terminates, submessages included, whatever `free` does.
use app_card.Base.{
  ℕ, zero, suc, ◌≡◌, refl, inl, inr, true, false, not, ◌&&◌, ◌||◌, some, List, ◌==◌, if◌then◌else◌,
  get_elem?, ok, arith,
}
use app_card.Nanopb.Pb.{
  PbField, atype, htype, ltype, atype_callback, atype_pointer, htype_repeated, htype_oneof,
  ltype_bytes, ltype_string, ltype_extension, ltype_submessage,
}
use app_card.Nanopb.Memory.{Memory, load}
use app_card.Nanopb.FieldIter.{FieldIter}
use app_card.Nanopb.Environment.{load_ptr}
use app_card.Nanopb.Runtime.{Runtime, Effect}
use app_card.Nanopb.SetDefaults.Returns.{
  IsMessage, Returns, seq-Returns, if-Returns, over_table-Returns, Nests,
}
use app_card.Nanopb.Release.{
  free_at, release_items, release_entries, submessage_count, release_submessages, release_pointer,
  release_contents, release_table, pb_release_single_field, pb_release,
}

module _ (rt : Runtime) where
  free_at-Returns : (p : ℕ) → Returns (free_at rt p)
  free_at-Returns p m = (_, refl)

  release_items-Returns :
      (message : ℕ → Effect) (f : PbField) (left p : ℕ)
      → ((q : ℕ) → Returns (message q))
      → Returns (release_items rt message f left p)
  unfolding release_items
  release_items-Returns message f zero p h m = (m, refl)
  release_items-Returns message f (suc left) p h m =
      seq-Returns (message p) _ (h p) (release_items-Returns message f left _ h) m

  release_entries-Returns : (left p : ℕ) → Returns (release_entries rt left p)
  unfolding release_entries
  release_entries-Returns zero p m = (m, refl)
  release_entries-Returns (suc left) p m =
      seq-Returns (free_at rt p) _ (free_at-Returns p) (release_entries-Returns left _) m

  release_submessages-Returns :
      (message : List PbField → ℕ → Effect) (f : PbField) (iter : FieldIter)
      → ((q : ℕ) → Returns (message (rt.tables f.ptr) q))
      → Returns (release_submessages rt message f iter)
  unfolding release_submessages
  release_submessages-Returns message f iter h m =
      let item : ℕ =
        if atype f.type == atype_pointer then load_ptr m iter.p_data else iter.p_data in
      let count = submessage_count rt f iter m in
      if-Returns (item == 0) (ok tt) (release_items rt (message (rt.tables f.ptr)) f count item)
        (λ _ m'. (m', refl)) (λ _. release_items-Returns (message (rt.tables f.ptr)) f count item h)
        m

  release_pointer-Returns : (f : PbField) (iter : FieldIter) → Returns (release_pointer rt f iter)
  unfolding release_pointer
  release_pointer-Returns f iter =
      seq-Returns _ _
        (seq-Returns _ _
          (if-Returns
            (htype f.type == htype_repeated
              && (ltype f.type == ltype_string || ltype f.type == ltype_bytes))
            _ _ (λ _ m. release_entries-Returns (load 4 m iter.p_size) (load_ptr m iter.p_data) m)
            λ _ m. (m, refl))
          (if-Returns (htype f.type == htype_repeated) _ _ (λ _ m. (_, refl)) λ _ m. (m, refl)))
        (free_at-Returns iter.p_data)

  release_contents-Returns :
      (message : List PbField → ℕ → Effect) (field : FieldIter → Effect) (links : ℕ) (f : PbField)
      (iter : FieldIter)
      → (ltype f.type == ltype_extension) ≡ false
      → ((ltype f.type == ltype_submessage) ≡ true
          → (q : ℕ) → Returns (message (rt.tables f.ptr) q))
      → Returns (release_contents rt message field links f iter)
  unfolding release_contents
  release_contents-Returns message field links f iter plain h =
      seq-Returns _ _
        (if-Returns (ltype f.type == ltype_extension) _ _ (λ e. absurd (ground (arith, e, plain)))
          λ _.
            if-Returns (ltype f.type == ltype_submessage && not (atype f.type == atype_callback)) _
              _ (λ e. release_submessages-Returns message f iter (h (ground (arith, e))))
              λ _ m. (m, refl))
        (if-Returns (atype f.type == atype_pointer) _ _ (λ _. release_pointer-Returns f iter)
          λ _ m. (m, refl))

  release_table-Returns :
      (P : PbField → Type 0) (field : FieldIter → Effect) (table : List PbField) (dest : ℕ)
      → ((it : FieldIter) (f : PbField)
          → get_elem? it.start it.pos ≡ some f
          → P f
          → Returns (field it))
      → IsMessage P table
      → Returns (release_table rt field table dest)
  release_table-Returns P field table dest visits message =
      if-Returns (dest == 0) _ _ (λ _ m. (m, refl))
        λ _. over_table-Returns rt P field table dest visits message

  -- At a field that has no extensions and whose submessages are nested less than `depth` deep.
  pub pb_release_single_field-Returns :
      (depth links : ℕ) (it : FieldIter) (f : PbField)
      → get_elem? it.start it.pos ≡ some f
      → Nests rt depth f
      → Returns (pb_release_single_field rt depth links it)
  unfolding pb_release_single_field
  pb_release_single_field-Returns zero links it f current h m = elim h [ ]
  pb_release_single_field-Returns (suc depth) links it f current (plain, inside) m = rw current (
      if-Returns (htype f.type == htype_oneof && not (load 4 m it.p_size == f.tag)) (ok tt) _
        (λ _ m'. (m', refl))
        (λ _.
          release_contents-Returns (release_table rt (pb_release_single_field rt depth links))
            (pb_release_single_field rt depth links) links f it plain
            λ sub q. elim inside [
              | inl other ↦ absurd (ground (arith, sub, other))
              | inr message ↦
                  release_table-Returns (Nests rt depth) (pb_release_single_field rt depth links)
                    (rt.tables f.ptr) q
                    (λ it' f' e h. pb_release_single_field-Returns depth links it' f' e h) message
            ])
        m)

  -- The table of a message that has no extensions and whose submessages are nested less than `depth`
  -- deep, each with a table of its own: `pb_release` returns, for any memory and wherever the
  -- message is.
  pub pb_release-Returns :
      (depth links : ℕ) (fields : List PbField) (dest : ℕ)
      → IsMessage (Nests rt depth) fields
      → (m : Memory) → (m' : Memory) × (pb_release rt depth links fields dest m ≡ ok tt m')
  unfolding pb_release
  pb_release-Returns depth links fields dest message =
      release_table-Returns (Nests rt depth) (pb_release_single_field rt depth links) fields dest
        (λ it f e h. pb_release_single_field-Returns depth links it f e h) message
