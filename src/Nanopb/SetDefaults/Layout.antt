-- ===== src/Nanopb/SetDefaults/Layout.antt =====
-- The loop over the fields of a message that are laid out one after the other: what is done to each
-- stays with it.
use app_card.Base.{
  ℕ, zero, suc, ◌+◌, ◌%◌, ◌^◌, ◌≤◌, ◌<◌, ◌≡◌, refl, ◌∙◌, sym, ap, inl, false, true, some, List, [],
  ◌∷◌, ◌++◌, ◌==◌, length, get_elem?, ok, arith, length-append, append_assoc,
}
use app_card.Nanopb.Pb.{PbField, htype, htype_oneof, add_ssize}
use app_card.Nanopb.Memory.{Memory}
use app_card.Nanopb.Memory.Fills.{Outside, Outside-wider, Outside-trans}
use app_card.Nanopb.FieldIter.{FieldIter, begun, advanced, prev_size, pb_field_iter_begin}
use app_card.Nanopb.FieldIter.Step.{
  IsTable, get_elem?-append_length, get_elem?-append_next, next_inside, next_end, advanced_pos,
}
use app_card.Nanopb.Runtime.{Effect}
use app_card.Nanopb.SetDefaults.{each_field, over_message}

-- Where a field behind `b` begins, where its size or flag is, and where it ends.
abbrev pub data_at : ℕ → PbField → ℕ
data_at b f = b + f.data_offset

abbrev pub size_at : ℕ → PbField → ℕ
size_at b f = add_ssize (data_at b f) f.size_offset

abbrev pub stop : ℕ → PbField → ℕ
stop b f = data_at b f + prev_size f

abbrev pub stop_all : ℕ → List PbField → ℕ
stop_all b [] = b
stop_all b (f ∷ fs) = stop_all (stop b f) fs

-- Each field has the property, at its place.
abbrev pub AllFrom : (ℕ → PbField → Type 0) → ℕ → List PbField → Type 0
AllFrom P b [] = Unit {0}
AllFrom P b (f ∷ fs) = P b f × AllFrom P (stop b f) fs

pub stop_all-le : (b : ℕ) (fs : List PbField) → b ≤ stop_all b fs
stop_all-le b [] = omega arith
stop_all-le b (f ∷ fs) = omega (arith, stop_all-le (stop b f) fs)

-- The iterator stands at a field that is laid out behind `b`.
pub record StandsBehind (b : ℕ) (f : PbField) (it : FieldIter) : Type 0 where
  pub current : get_elem? it.start it.pos ≡ some f
  pub address : it.p_data ≡ data_at b f
  pub size : it.p_size ≡ size_at b f

-- The table of a message whose fields are laid out from `b` up to `e` and have the property.
pub record LaidOut (P : ℕ → PbField → Type 0) (table : List PbField) (b e : ℕ) : Type 0 where
  pub fields : List PbField
  pub end : PbField
  pub whole : table ≡ fields ++ (end ∷ [])
  pub is_table : IsTable fields end
  pub each : AllFrom P b fields
  pub inside : stop_all b fields ≤ e

-- An effect that changes nothing but from `b` up to `e`, and what holds then.
abbrev pub Leaves : Effect → (Memory → Type 0) → ℕ → ℕ → Memory → Type 0
Leaves effect Q b e m = (m' : Memory) × (effect m ≡ ok tt m') × Q m' × Outside b e m m'

advanced_place :
    (b : ℕ) (f g : PbField) (it : FieldIter)
    → (htype f.type == htype_oneof) ≡ false
    → stop (stop b f) g < 2 ^ 64
    → it.p_data ≡ data_at b f
    → ((advanced f g it).p_data ≡ data_at (stop b f) g)
      × ((advanced f g it).p_size ≡ size_at (stop b f) g)
unfolding advanced
advanced_place b f g it single fits here =
    let place : (it.p_data + prev_size f + g.data_offset) % 2 ^ 64 ≡ data_at (stop b f) g =
      omega (arith, here, fits) in
    rw single (place, ap (λ (p : ℕ). add_ssize p g.size_offset) place)

-- `P` is what a field needs and `Q` what it has then; the rest of memory is as in `c`, but from `lo`
-- up to `hi`, where the message is.
module _ (P : ℕ → PbField → Type 0) (Q : ℕ → PbField → Memory → Type 0) (c : Memory) (lo hi : ℕ)
    (visit : FieldIter → Effect)
    (single : (b : ℕ) (f : PbField) → P b f → (htype f.type == htype_oneof) ≡ false)
    (fits : (b : ℕ) (f : PbField) → P b f → stop b f < 2 ^ 64)
    (visits : (b : ℕ) (f : PbField) (it : FieldIter) (m : Memory)
      → StandsBehind b f it
      → P b f
      → lo ≤ b
      → stop b f ≤ hi
      → Outside lo hi c m
      → Leaves (visit it) (Q b f) b (stop b f) m)
    (local : (b : ℕ) (f : PbField) (m m' : Memory)
      → P b f
      → ((x : ℕ) → x < stop b f → m' x ≡ m x)
      → Q b f m
      → Q b f m') where
  each_field-Leaves :
      (back front : List PbField) (f end : PbField) (fuel b : ℕ) (it : FieldIter) (m : Memory)
      → it.start ≡ front ++ (f ∷ (back ++ (end ∷ [])))
      → it.pos ≡ length front
      → it.p_data ≡ data_at b f
      → it.p_size ≡ size_at b f
      → IsTable (f ∷ back) end
      → AllFrom P b (f ∷ back)
      → lo ≤ b
      → stop_all b (f ∷ back) ≤ hi
      → Outside lo hi c m
      → length back < fuel
      → Leaves
          (each_field visit fuel it)
          (λ m'. AllFrom (λ a e. Q a e m') b (f ∷ back))
          b
          (stop_all b (f ∷ back))
          m
  unfolding each_field
  each_field-Leaves back front f end zero b it m e p address size t h above below keeps enough =
      absurd (omega (arith, enough))
  each_field-Leaves [] front f end (suc fuel) b it m e p address size t h above below keeps enough =
      let here : get_elem? it.start it.pos ≡ some f =
        rw (e, p) (get_elem?-append_length front f (end ∷ [])) in
      let (m', visited, holds, outside) =
        visits b f it m (record { current = here; address = address; size = size }) h.0 above below
          keeps in
      let (g, first) = head front in
      let last =
        next_end it f end g here (rw (e, p) (get_elem?-append_next front f end [])) (rw e first)
          t.tags.0 t.last in
      (m', rw (visited, last) refl, (holds, tt), outside)
    where
      head :
          (front : List PbField)
          → (g : PbField) × (get_elem? (front ++ (f ∷ (end ∷ []))) 0 ≡ some g)
      head [] = (f, refl)
      head (g ∷ front) = (g, refl)
  each_field-Leaves (g ∷ back) front f end (suc fuel) b it m e p address size t h above below keeps
        enough =
      let here : get_elem? it.start it.pos ≡ some f =
        rw (e, p) (get_elem?-append_length front f _) in
      let more = stop_all-le (stop (stop b f) g) back in
      let (m', visited, holds, outside) =
        visits b f it m (record { current = here; address = address; size = size }) h.0 above
          (omega (arith, below, more)) keeps in
      let next =
        next_inside it f g here (rw (e, p) (get_elem?-append_next front f g _)) t.tags.0
          t.tags.1.0 in
      let (moved, table) = advanced_pos f g it in
      let (place, sized) =
        advanced_place b f g it (single b f h.0) (fits (stop b f) g h.1.0) address in
      let wide = Outside-wider b (stop b f) lo hi m m' above (omega (arith, below, more)) outside in
      let (m'', rest, holds', outside') =
        each_field-Leaves back (front ++ (f ∷ [])) g end fuel (stop b f) (advanced f g it) m'
          (table ∙ e ∙ sym (append_assoc front (f ∷ []) (g ∷ (back ++ (end ∷ [])))))
          (omega (arith, moved, p, length-append front (f ∷ []))) place sized
          (record { tags = t.tags.1; last = t.last }) h.1 (omega (arith, above)) below
          (Outside-trans lo hi c m m' keeps wide) (omega (arith, enough)) in
      let total = stop_all b (f ∷ g ∷ back) in
      (
        m'',
        rw (visited, next) rest,
        (local b f m' m'' h.0 (λ x lt. outside' x (inl lt)) holds, holds'),
        Outside-trans b total m m' m''
            (Outside-wider b (stop b f) b total m m' (omega arith) (omega (arith, more)) outside)
            (Outside-wider (stop b f) total b total m' m'' (omega arith) (omega arith) outside'),
      )

  pub over_message-Leaves :
      (table : List PbField) (b e : ℕ) (m : Memory)
      → (h : LaidOut P table b e) → lo ≤ b
      → e ≤ hi
      → Outside lo hi c m
      → Leaves (over_message visit table b) (λ m'. AllFrom (λ a g. Q a g m') b h.fields) b e m
  unfolding over_message pb_field_iter_begin
  over_message-Leaves table b e m h above below keeps =
      rw (h.whole) (by_fields h.fields h.is_table h.each h.inside)
    where
      by_fields :
          (fields : List PbField)
          → IsTable fields h.end
          → AllFrom P b fields
          → stop_all b fields ≤ e
          → Leaves
              (over_message visit (fields ++ (h.end ∷ [])) b)
              (λ m'. AllFrom (λ a g. Q a g m') b fields)
              b
              e
              m
      by_fields [] t each inside =
          let empty : (h.end.tag == 0) ≡ true = ground (arith, t.last) in
          (m, rw empty refl, tt, λ x o. refl)
      by_fields (f ∷ back) t each inside =
          let full : (f.tag == 0) ≡ false = ground (arith, t.tags.0) in
          let room = stop_all-le (stop b f) back in
          let small = fits b f each.0 in
          let place : (b + f.data_offset) % 2 ^ 64 ≡ data_at b f = omega (arith, small) in
          let (m', done, holds, outside) =
            each_field-Leaves back [] f h.end (length (f ∷ (back ++ (h.end ∷ [])))) b
              (begun (f ∷ (back ++ (h.end ∷ []))) b f) m refl refl place
              (ap (λ (q : ℕ). add_ssize q f.size_offset) place) t each above
              (omega (arith, inside, below)) keeps
              (omega (arith, length-append back (h.end ∷ []))) in
          (
            m',
            rw full done,
            holds,
            Outside-wider b (stop_all b (f ∷ back)) b e m m' (omega arith) inside outside,
          )
