-- ===== src/Nanopb/FieldIter/Inside.antt =====
-- An iterator in front of the end of a table stays there when a field is searched for.
use app_card.Base.{
  ℕ, zero, suc, ◌+◌, ◌<◌, ◌≡◌, ◌≢◌, refl, sym, ap, ◌∙◌, subst, inl, inr, some, List, [], ◌∷◌, ◌++◌,
  length, get_elem?, Run, ok, failed, fault, stuck, All, arith, length-append, append_assoc, false,
  ◌==◌,
}
use mathlib.Core.Option.{some-injective}
use app_card.Nanopb.Pb.{PbField}
use app_card.Nanopb.FieldIter.{
  FieldIter, begun, pb_field_iter_begin, pb_field_iter_next, pb_field_iter_find,
}
use app_card.Nanopb.FieldIter.Step.{
  IsTable, get_elem?-append_length, get_elem?-append_next, advanced_pos, next_inside, next_end,
}
use app_card.Nanopb.FieldIter.Find.{All-front, pb_field_iter_find-cases}

-- The iterator stands at one of the fields.
pub record IsAtField (fs : List PbField) (end : PbField) (it : FieldIter) : Type 0 where
  pub table : it.start ≡ fs ++ (end ∷ [])
  pub inside : it.pos < length fs

-- A list at one of its elements.
pub record Split (fs : List PbField) (i : ℕ) : Type 0 where
  pub front : List PbField
  pub at : PbField
  pub back : List PbField
  pub whole : fs ≡ front ++ (at ∷ back)
  pub index : i ≡ length front

pub split : (fs : List PbField) (i : ℕ) → i < length fs → Split fs i
split [] i h = absurd (omega arith)
split (f ∷ fs) zero h = record { front = []; at = f; back = fs; whole = refl; index = refl }
split (f ∷ fs) (suc i) h =
    let s = split fs i (omega arith) in
    record {
      front = f ∷ s.front;
      at = s.at;
      back = s.back;
      whole = ap (λ (t : List PbField). f ∷ t) s.whole;
      index = ap suc s.index;
    }

-- Some field with the property.
pub record Current (P : PbField → Type 0) (it : FieldIter) : Type 0 where
  pub field : PbField
  pub current : get_elem? it.start it.pos ≡ some field
  pub holds : P field

elem_at :
    (P : PbField → Type 0) (fs : List PbField) (end : PbField) (i : ℕ)
    → All P fs
    → i < length fs
    → (f : PbField) × (get_elem? (fs ++ (end ∷ [])) i ≡ some f) × P f
elem_at P [] end i h lt = absurd (omega arith)
elem_at P (f ∷ fs) end zero h lt = (f, refl, h.0)
elem_at P (f ∷ fs) end (suc i) h lt = elem_at P fs end i h.1 (omega arith)

pub field_there :
    {fs : List PbField} {end : PbField} (P : PbField → Type 0) (it : FieldIter)
    → IsAtField fs end it
    → All P fs
    → Current P it
field_there {fs} {end} P it at h =
    let (f, e, p) = elem_at P fs end it.pos h at.inside in
    record { field = f; current = rw (at.table) e; holds = p }

not_end :
    (fs : List PbField) (end f : PbField) (i : ℕ)
    → end.tag ≡ 0
    → f.tag ≢ 0
    → get_elem? (fs ++ (end ∷ [])) i ≡ some f
    → i < length fs
not_end [] end f zero last tagged e =
    absurd (tagged (ap (λ (g : PbField). g.tag) (sym (some-injective end f e)) ∙ last))
not_end [] end f (suc i) last tagged e = absurd (ground (arith, e))
not_end (g ∷ fs) end f zero last tagged e = omega arith
not_end (g ∷ fs) end f (suc i) last tagged e = omega (arith, not_end fs end f i last tagged e)

-- A search that succeeds or fails at a field.
abbrev pub StaysIn : List PbField → PbField → Run FieldIter (Unit {0}) (Unit {0}) → Type 0
StaysIn fs end (ok a to) = IsAtField fs end to
StaysIn fs end (failed e to) = IsAtField fs end to
StaysIn fs end fault = ⊥
StaysIn fs end stuck = ⊥

pub pb_field_iter_find-StaysIn :
    (fs : List PbField) (end : PbField) (tag : ℕ) (it : FieldIter)
    → IsTable fs end
    → IsAtField fs end it
    → StaysIn fs end (pb_field_iter_find tag it)
pb_field_iter_find-StaysIn fs end tag it t at =
    let s = split fs it.pos at.inside in
    elim (pb_field_iter_find-cases s.front s.at s.back end tag it
      (subst (λ (x : List PbField). IsTable x end) s.whole t)
      (at.table ∙ ap (λ (x : List PbField). x ++ (end ∷ [])) s.whole) s.index) [
        | inl q ↦ rw (q.result) (record {
          table = q.start ∙ at.table;
          inside =
              not_end fs end q.field q.to.pos t.last q.tagged
                (rw (← (q.start ∙ at.table)) q.current);
        })
        | inr q ↦
            rw (q.result)
              (record { table = q.start ∙ at.table; inside = omega (arith, q.at, at.inside) })
      ]

-- A step leads to the next field, or back to the first.
abbrev pub Steps : List PbField → PbField → ℕ → Run FieldIter (Unit {0}) (Unit {0}) → Type 0
Steps fs end pos (ok a to) = IsAtField fs end to × (to.pos ≡ pos + 1)
Steps fs end pos (failed e to) = IsAtField fs end to
Steps fs end pos fault = ⊥
Steps fs end pos stuck = ⊥

first_of :
    (fs : List PbField) (end : PbField) (i : ℕ)
    → i < length fs
    → (h : PbField) × (get_elem? (fs ++ (end ∷ [])) 0 ≡ some h)
first_of [] end i lt = absurd (omega arith)
first_of (f ∷ fs) end i lt = (f, refl)

next_from :
    (fs front back : List PbField) (f end : PbField) (it : FieldIter)
    → IsAtField fs end it
    → fs ≡ front ++ (f ∷ back)
    → it.start ≡ front ++ (f ∷ (back ++ (end ∷ [])))
    → it.pos ≡ length front
    → IsTable (f ∷ back) end
    → Steps fs end it.pos (pb_field_iter_next it)
next_from fs front [] f end it at whole e p t =
    let (h, e0) = first_of fs end it.pos at.inside in
    rw
      (next_end it f end h (rw (e, p) (get_elem?-append_length front f (end ∷ [])))
        (rw (e, p) (get_elem?-append_next front f end [])) (rw (at.table) e0) t.tags.0 t.last)
      (record { table = at.table; inside = omega (arith, at.inside) })
next_from fs front (g ∷ back) f end it at whole e p t =
    let (moved, table) = advanced_pos f g it in
    rw
      (next_inside it f g (rw (e, p) (get_elem?-append_length front f _))
        (rw (e, p) (get_elem?-append_next front f g _)) t.tags.0 t.tags.1.0)
      (
        record {
          table = table ∙ at.table;
          inside = omega (arith, moved, p, ap length whole, length-append front (f ∷ g ∷ back));
        },
        moved,
      )

pub pb_field_iter_next-Steps :
    (fs : List PbField) (end : PbField) (it : FieldIter)
    → IsTable fs end
    → IsAtField fs end it
    → Steps fs end it.pos (pb_field_iter_next it)
pb_field_iter_next-Steps fs end it t at =
    let s = split fs it.pos at.inside in
    next_from fs s.front s.back s.at end it at s.whole
      (at.table
        ∙ ap (λ (x : List PbField). x ++ (end ∷ [])) s.whole
        ∙ append_assoc s.front (s.at ∷ s.back) (end ∷ []))
      s.index
      (record {
        tags =
            (All-front _ s.front (s.at ∷ s.back) (subst (All (λ f. f.tag ≢ 0)) s.whole t.tags)).1;
        last = t.last;
      })

-- The iteration over a message with a field begins at one.
pub pb_field_iter_begin-IsAtField :
    (fs : List PbField) (end : PbField) (dest : ℕ) (it : FieldIter)
    → IsTable fs end
    → 0 < length fs
    → (to : FieldIter) × (pb_field_iter_begin (fs ++ (end ∷ [])) dest it ≡ ok tt to)
      × IsAtField fs end to
unfolding pb_field_iter_begin
pb_field_iter_begin-IsAtField [] end dest it t some_field = absurd (omega arith)
pb_field_iter_begin-IsAtField (f ∷ fs) end dest it t some_field =
    let full : (f.tag == 0) ≡ false = ground (arith, t.tags.0) in
    (
      begun (f ∷ (fs ++ (end ∷ []))) dest f,
      rw full refl,
      record { table = refl; inside = omega arith },
    )
