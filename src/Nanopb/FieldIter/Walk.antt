-- ===== src/Nanopb/FieldIter/Walk.antt =====
-- The loop of `pb_field_iter_find` over a stretch of a table.
use app_card.Base.{
  ℕ, zero, suc, ◌+◌, ◌≤◌, ◌<◌, ◌≡◌, ◌≢◌, refl, sym, ap, ◌∙◌, ◌⊎◌, inl, inr, true, false, Bool-cases,
  some, List, [], ◌∷◌, ◌++◌, ◌==◌, if◌then◌else◌, length, get_elem?, Run, ok, failed, All, arith,
  length-append, append_assoc,
}
use app_card.Nanopb.Pb.{PbField}
use app_card.Nanopb.FieldIter.{FieldIter, wanted, pb_field_iter_next, find_loop, either_way}
use app_card.Nanopb.FieldIter.Step.{IsTable, get_elem?-append_length, wrap, Leads, leads}

-- A wanted field was found.
pub record Found (tag : ℕ) (table : List PbField) (r : Run FieldIter (Unit {0}) (Unit {0}))
    : Type 0 where
  pub to : FieldIter
  pub field : PbField
  pub result : r ≡ ok tt to
  pub start : to.start ≡ table
  pub current : get_elem? to.start to.pos ≡ some field
  pub is_wanted : wanted tag field ≡ true
  pub tagged : field.tag ≢ 0

abbrev pub Unwanted : ℕ → List PbField → Type 0
Unwanted tag fs = All (λ f. wanted tag f ≡ false) fs

-- The loop went on behind some fields, none of which was wanted.
pub record Walked (fuel start tag : ℕ) (table fs : List PbField) (pos : ℕ)
    (r : Run FieldIter (Unit {0}) (Unit {0})) : Type 0 where
  pub to : FieldIter
  pub result : r ≡ (if to.pos == start then failed tt else find_loop fuel start tag) to
  pub same : to.start ≡ table
  pub at : to.pos ≡ pos
  pub none_wanted : Unwanted tag fs

pub found_here :
    (fuel start tag : ℕ) (it : FieldIter) (f : PbField)
    → get_elem? it.start it.pos ≡ some f
    → wanted tag f ≡ true
    → find_loop (suc fuel) start tag it ≡ ok tt it
unfolding find_loop
found_here fuel start tag it f e w = rw (e, w)

pub not_here :
    (fuel start tag : ℕ) (it : FieldIter) (f : PbField)
    → get_elem? it.start it.pos ≡ some f
    → wanted tag f ≡ false
    → find_loop (suc fuel) start tag it
      ≡ either_way
          (pb_field_iter_next it)
          (λ it'. (if it'.pos == start then failed tt else find_loop fuel start tag) it')
unfolding find_loop
not_here fuel start tag it f e w = rw (e, w)

-- A round that finds nothing, and is not the last.
one_round :
    (fuel start tag pos : ℕ) (it : FieldIter) (f : PbField)
    → get_elem? it.start it.pos ≡ some f
    → wanted tag f ≡ false
    → (l : Leads it pos)
    → find_loop (suc fuel) start tag it
      ≡ (if pos == start then failed tt else find_loop fuel start tag) l.to
one_round fuel start tag pos it f e w l = not_here fuel start tag it f e w ∙ l.step _ ∙ rw l.at refl

-- What the rounds behind it come to is what the whole loop comes to.
later :
    (start tag fuel rounds : ℕ) {pos pos' : ℕ} (f : PbField) (back : List PbField) (s t : FieldIter)
    {r : Run FieldIter (Unit {0}) (Unit {0})}
    → s.start ≡ t.start
    → pos ≡ pos'
    → r ≡ find_loop rounds start tag s
    → wanted tag f ≡ false
    → Found tag s.start (find_loop rounds start tag s)
      ⊎ Walked fuel start tag s.start back pos (find_loop rounds start tag s)
    → Found tag t.start r ⊎ Walked fuel start tag t.start (f ∷ back) pos' r
later start tag fuel rounds f back s t same moved e w (inl q) = inl record {
  to = q.to;
  field = q.field;
  result = e ∙ q.result;
  start = q.start ∙ same;
  current = q.current;
  is_wanted = q.is_wanted;
  tagged = q.tagged;
}
later start tag fuel rounds f back s t same moved e w (inr q) = inr record {
  to = q.to;
  result = e ∙ q.result;
  same = q.same ∙ same;
  at = q.at ∙ moved;
  none_wanted = (w, q.none_wanted);
}

pub walk :
    (back front more : List PbField) (f end : PbField) (fuel start tag rounds : ℕ) (it : FieldIter)
    → it.start ≡ front ++ (f ∷ ((back ++ more) ++ (end ∷ [])))
    → it.pos ≡ length front
    → IsTable (f ∷ (back ++ more)) end
    → (start ≤ length front) ⊎ (length front + length back < start)
    → rounds ≡ length back + 1 + fuel
    → Found tag it.start (find_loop rounds start tag it)
      ⊎ Walked fuel start tag it.start
          (f ∷ back)
          (wrap more (length front + length back))
          (find_loop rounds start tag it)
walk back front more f end fuel start tag zero it e p t apart enough = absurd (omega arith)
walk [] front more f end fuel start tag (suc rounds) it e p t apart enough =
    elim (Bool-cases (wanted tag f)) [
      | inl w ↦ inl record {
        to = it;
        field = f;
        result = found_here rounds start tag it f here w;
        start = refl;
        current = here;
        is_wanted = w;
        tagged = t.tags.0;
      }
      | inr w ↦
          let l = leads front more f end it e p t in
          let spent : rounds ≡ fuel = omega (arith, enough) in
          inr record {
            to = l.to;
            result = rw spent (not_here fuel start tag it f here w ∙ l.step _);
            same = l.start;
            at = l.at ∙ ap (wrap more) (omega arith);
            none_wanted = (w, tt);
          }
    ]
  where
    here : get_elem? it.start it.pos ≡ some f
    here = rw (e, p) (get_elem?-append_length front f (more ++ (end ∷ [])))
walk (b ∷ back) front more f end fuel start tag (suc rounds) it e p t apart enough =
    elim (Bool-cases (wanted tag f)) [
      | inl w ↦ inl record {
        to = it;
        field = f;
        result = found_here rounds start tag it f here w;
        start = refl;
        current = here;
        is_wanted = w;
        tagged = t.tags.0;
      }
      | inr w ↦
          let l = leads front ((b ∷ back) ++ more) f end it e p t in
          let size = length-append front (f ∷ []) in
          let apart' : (start ≤ length (front ++ (f ∷ [])))
              ⊎ (length (front ++ (f ∷ [])) + length back < start) =
            ground (arith, size) in
          let not_start : (length front + 1 == start) ≡ false = ground arith in
          later start tag fuel rounds f (b ∷ back) l.to it l.start
            (ap (wrap more) (omega (arith, size)))
            (one_round rounds start tag (length front + 1) it f here w l ∙ rw not_start refl) w
            (walk back (front ++ (f ∷ [])) more b end fuel start tag rounds l.to
              (l.start ∙ e ∙ sym (append_assoc front (f ∷ []) (b ∷ ((back ++ more) ++ (end ∷ [])))))
              (omega (arith, l.at, size)) (record { tags = t.tags.1; last = t.last }) apart'
              (omega arith))
    ]
  where
    here : get_elem? it.start it.pos ≡ some f
    here = rw (e, p) (get_elem?-append_length front f (((b ∷ back) ++ more) ++ (end ∷ [])))
