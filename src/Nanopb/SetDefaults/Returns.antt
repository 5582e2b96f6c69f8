-- ===== src/Nanopb/SetDefaults/Returns.antt =====
-- The initialisation of a message terminates, submessages included.
use app_card.Base.{
  ℕ, zero, suc, ◌<◌, ◌≡◌, refl, ◌∙◌, sym, ◌⊎◌, inl, inr, Bool, true, false, not, ◌&&◌, ◌||◌, some,
  List, [], ◌∷◌, ◌++◌, ◌==◌, if◌then◌else◌, length, get_elem?, ok, All, arith, length-append,
  append_assoc, ◌>>◌,
}
use app_card.Nanopb.Pb.{
  PbField, atype, htype, ltype, atype_static, atype_pointer, htype_optional, htype_repeated,
  htype_oneof, ltype_extension, ltype_submessage,
}
use app_card.Nanopb.Memory.{Memory}
use app_card.Nanopb.FieldIter.{FieldIter, begun, advanced, pb_field_iter_begin}
use app_card.Nanopb.FieldIter.Step.{
  IsTable, get_elem?-append_length, get_elem?-append_next, next_inside, next_end, advanced_pos,
}
use app_card.Nanopb.Runtime.{Runtime, Effect}
use app_card.Nanopb.SetDefaults.{
  each_field, over_message, default_static, default_pointer, init_data, pb_field_set_to_default,
  pb_message_set_to_defaults,
}

-- The table of a message all fields of which have the property.
pub record IsMessage (P : PbField → Type 0) (table : List PbField) : Type 0 where
  pub fields : List PbField
  pub end : PbField
  pub whole : table ≡ fields ++ (end ∷ [])
  pub is_table : IsTable fields end
  pub each : All P fields

-- An effect that returns on any memory.
abbrev pub Returns : Effect → Type 0
Returns e = (m : Memory) → (m' : Memory) × (e m ≡ ok tt m')

pub seq-Returns : (e k : Effect) → Returns e → Returns k → Returns (e >> k)
seq-Returns e k h h' m =
    let (m', first) = h m in let (m'', second) = h' m' in (m'', rw first second)

pub if-Returns :
    (b : Bool) (e k : Effect)
    → (b ≡ true → Returns e)
    → (b ≡ false → Returns k)
    → Returns (if b then e else k)
if-Returns true e k h h' = h refl
if-Returns false e k h h' = h' refl

module _ (P : PbField → Type 0) (visit : FieldIter → Effect)
    (visits : (it : FieldIter) (f : PbField)
      → get_elem? it.start it.pos ≡ some f
      → P f
      → Returns (visit it)) where
  each_field-Returns :
      (back front : List PbField) (f end : PbField) (fuel : ℕ) (it : FieldIter)
      → it.start ≡ front ++ (f ∷ (back ++ (end ∷ [])))
      → it.pos ≡ length front
      → IsTable (f ∷ back) end
      → All P (f ∷ back)
      → length back < fuel
      → Returns (each_field visit fuel it)
  unfolding each_field
  each_field-Returns back front f end zero it e p t h enough m = absurd (omega arith)
  each_field-Returns [] front f end (suc fuel) it e p t h enough m =
      let here : get_elem? it.start it.pos ≡ some f =
        rw (e, p) (get_elem?-append_length front f (end ∷ [])) in
      let (m', visited) = visits it f here h.0 m in
      let (g, first) = head front in
      let last =
        next_end it f end g here (rw (e, p) (get_elem?-append_next front f end [])) (rw e first)
          t.tags.0 t.last in
      (m', rw (visited, last) refl)
    where
      head :
          (front : List PbField)
          → (g : PbField) × (get_elem? (front ++ (f ∷ (end ∷ []))) 0 ≡ some g)
      head [] = (f, refl)
      head (g ∷ front) = (g, refl)
  each_field-Returns (g ∷ back) front f end (suc fuel) it e p t h enough m =
      let here : get_elem? it.start it.pos ≡ some f =
        rw (e, p) (get_elem?-append_length front f _) in
      let (m', visited) = visits it f here h.0 m in
      let more =
        next_inside it f g here (rw (e, p) (get_elem?-append_next front f g _)) t.tags.0
          t.tags.1.0 in
      let (moved, table) = advanced_pos f g it in
      let (m'', rest) =
        each_field-Returns back (front ++ (f ∷ [])) g end fuel (advanced f g it)
          (table ∙ e ∙ sym (append_assoc front (f ∷ []) (g ∷ (back ++ (end ∷ [])))))
          (omega (arith, moved, p, length-append front (f ∷ [])))
          (record { tags = t.tags.1; last = t.last }) h.1 (omega arith) m' in
      (m'', rw (visited, more) rest)

  over_message-Returns :
      (fs : List PbField) (end : PbField) (dest : ℕ)
      → IsTable fs end
      → All P fs
      → Returns (over_message visit (fs ++ (end ∷ [])) dest)
  unfolding over_message pb_field_iter_begin
  over_message-Returns [] end dest t h m =
      let empty : (end.tag == 0) ≡ true = ground (arith, t.last) in (m, rw empty refl)
  over_message-Returns (f ∷ back) end dest t h m =
      let full : (f.tag == 0) ≡ false = ground (arith, t.tags.0) in
      let (m', done) =
        each_field-Returns back [] f end (length (f ∷ (back ++ (end ∷ []))))
          (begun (f ∷ (back ++ (end ∷ []))) dest f) refl refl t h
          (omega (arith, length-append back (end ∷ []))) m in
      (m', rw full done)

-- A field with no extensions, and no submessages but those of a message that is nested less deep.
abbrev pub Nests : Runtime → ℕ → PbField → Type 0
Nests rt zero f = ⊥
Nests rt (suc depth) f =
    ((ltype f.type == ltype_extension) ≡ false)
    × (((ltype f.type == ltype_submessage) ≡ false) ⊎ IsMessage (Nests rt depth) (rt.tables f.ptr))

module _ (rt : Runtime) where
  init_data-Returns :
      (message : List PbField → ℕ → Effect) (f : PbField) (p_data : ℕ)
      → ((ltype f.type == ltype_submessage) ≡ true → Returns (message (rt.tables f.ptr) p_data))
      → Returns (init_data rt message f p_data)
  init_data-Returns message f p_data h =
      if-Returns (ltype f.type == ltype_submessage) _ _ h
        λ _. if-Returns (not (f.ptr == 0)) _ _ (λ _ m. (_, refl)) λ _ m. (_, refl)

  default_static-Returns :
      (message : List PbField → ℕ → Effect) (f : PbField) (iter : FieldIter)
      → ((ltype f.type == ltype_submessage) ≡ true
          → Returns (message (rt.tables f.ptr) iter.p_data))
      → Returns (default_static rt message f iter)
  unfolding default_static
  default_static-Returns message f iter h =
      let value = init_data-Returns message f iter.p_data h in
      if-Returns (htype f.type == htype_optional && not (iter.p_size == iter.p_data)) _ _
        (λ _. seq-Returns _ _ (λ m. (_, refl)) value)
        λ _.
          if-Returns (htype f.type == htype_repeated || htype f.type == htype_oneof) _ _
            (λ _ m. (_, refl)) λ _. value

  default_pointer-Returns : (f : PbField) (iter : FieldIter) → Returns (default_pointer rt f iter)
  unfolding default_pointer
  default_pointer-Returns f iter =
      seq-Returns _ _ (λ m. (_, refl))
        (if-Returns (htype f.type == htype_repeated || htype f.type == htype_oneof) _ _
          (λ _ m. (_, refl)) λ _ m. (_, refl))

  pub over_table-Returns :
      (P : PbField → Type 0) (visit : FieldIter → Effect) (table : List PbField) (dest : ℕ)
      → ((it : FieldIter) (f : PbField)
          → get_elem? it.start it.pos ≡ some f
          → P f
          → Returns (visit it))
      → IsMessage P table
      → Returns (over_message visit table dest)
  over_table-Returns P visit table dest visits message = rw (message.whole) (
      over_message-Returns P visit visits message.fields message.end dest message.is_table
        message.each)

  kinds-Returns :
      (message : List PbField → ℕ → Effect) (f : PbField) (iter : FieldIter)
      → ((ltype f.type == ltype_submessage) ≡ true
          → Returns (message (rt.tables f.ptr) iter.p_data))
      → Returns (
          if atype f.type == atype_static
          then default_static rt message f iter
          else if atype f.type == atype_pointer
          then default_pointer rt f iter
          else ok tt)
  kinds-Returns message f iter h =
      if-Returns (atype f.type == atype_static) _ _ (λ _. default_static-Returns message f iter h)
        λ _.
          if-Returns (atype f.type == atype_pointer) _ _ (λ _. default_pointer-Returns f iter)
            λ _ m. (m, refl)

  field-Returns :
      (depth links : ℕ) (it : FieldIter) (f : PbField)
      → get_elem? it.start it.pos ≡ some f
      → Nests rt depth f
      → Returns (pb_field_set_to_default rt depth links it)
  unfolding pb_field_set_to_default
  field-Returns zero links it f current h m = elim h [ ]
  field-Returns (suc depth) links it f current (plain, inside) m =
      rw (current, plain)
        (kinds-Returns (over_message (pb_field_set_to_default rt depth links)) f it
          (λ sub. elim inside [
            | inl other ↦ absurd (ground (arith, sub, other))
            | inr message ↦
                over_table-Returns (Nests rt depth) (pb_field_set_to_default rt depth links)
                  (rt.tables f.ptr) it.p_data (λ it' f' e h. field-Returns depth links it' f' e h)
                  message
          ])
          m)

  -- The table of a message that has no extensions and whose submessages are nested less than `depth`
  -- deep, each with a table of its own: `pb_message_set_to_defaults` returns, for any memory and
  -- wherever the message is.
  pub pb_message_set_to_defaults-Returns :
      (depth links : ℕ) (fields : List PbField) (dest : ℕ) (m : Memory)
      → IsMessage (Nests rt depth) fields
      → (m' : Memory) × (pb_message_set_to_defaults rt depth links fields dest m ≡ ok tt m')
  unfolding pb_message_set_to_defaults
  pb_message_set_to_defaults-Returns depth links fields dest m message =
      over_table-Returns (Nests rt depth) (pb_field_set_to_default rt depth links) fields dest
        (λ it f e h. field-Returns depth links it f e h) message m
