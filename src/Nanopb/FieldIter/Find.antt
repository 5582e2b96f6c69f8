-- ===== src/Nanopb/FieldIter/Find.antt =====
-- `pb_field_iter_find` looks at every field of a table once, from the current one on and around.
use app_card.Base.{
  ℕ, ◌+◌, ◌<◌, ◌≡◌, ◌≢◌, refl, ap, ◌∙◌, ◌⊎◌, inl, inr, List, [], ◌∷◌, ◌++◌, ◌==◌, if◌then◌else◌,
  length, Run, failed, All, arith, length-append, append_assoc, append-nil,
}
use app_card.Nanopb.Pb.{PbField}
use app_card.Nanopb.FieldIter.{FieldIter, find_loop, pb_field_iter_find}
use app_card.Nanopb.FieldIter.Step.{IsTable}
use app_card.Nanopb.FieldIter.Walk.{Found, Unwanted, Walked, walk}

All-append : {A : Type 0} (P : A → Type 0) (xs ys : List A) → All P xs → All P ys → All P (xs ++ ys)
All-append P [] ys h k = k
All-append P (x ∷ xs) ys h k = (h.0, All-append P xs ys h.1 k)

pub All-front :
    {A : Type 0} (P : A → Type 0) (xs ys : List A) → All P (xs ++ ys) → All P xs × All P ys
All-front P [] ys h = (tt, h)
All-front P (x ∷ xs) ys h = let (a, b) = All-front P xs ys h.1 in ((h.0, a), b)

-- The loop came back to where it started, and no field is wanted.
pub record Missed (fs : List PbField) (pos tag : ℕ) (table : List PbField)
    (r : Run FieldIter (Unit {0}) (Unit {0})) : Type 0 where
  pub to : FieldIter
  pub result : r ≡ failed tt to
  pub start : to.start ≡ table
  pub at : to.pos ≡ pos
  pub none_wanted : Unwanted tag fs

module _ (fuel start tag : ℕ) (to : FieldIter) where
  stop :
      to.pos ≡ start
      → (if to.pos == start then failed tt else find_loop fuel start tag) to ≡ failed tt to
  stop h = ground arith

  go_on :
      to.pos ≢ start
      → (if to.pos == start then failed tt else find_loop fuel start tag) to
        ≡ find_loop fuel start tag to
  go_on h = ground arith

-- The second part of the search, over the fields in front of the one it started at.
around :
    (front rest : List PbField) (end : PbField) (tag : ℕ) (it : FieldIter)
    {r : Run FieldIter (Unit {0}) (Unit {0})}
    → IsTable (front ++ rest) end
    → 0 < length rest
    → Unwanted tag rest
    → (w : Walked (length front + 1) (length front) tag it.start rest 0 r)
    → it.start ≡ (front ++ rest) ++ (end ∷ [])
    → Found tag it.start r ⊎ Missed (front ++ rest) (length front) tag it.start r
around [] rest end tag it t pos u w e = inr record {
  to = w.to;
  result = w.result ∙ rw w.at refl;
  start = w.same;
  at = w.at;
  none_wanted = u;
}
around (g ∷ front) [] end tag it t pos u w e = absurd (omega arith)
around (g ∷ front) (f ∷ rest) end tag it {r} t pos u w e = finish (
    walk front [] (f ∷ rest) g end 1 (length (g ∷ front)) tag (length (g ∷ front) + 1) w.to
      (w.same ∙ e) w.at t (inr (omega arith)) (omega arith))
  where
    goes_on : r ≡ find_loop (length (g ∷ front) + 1) (length (g ∷ front)) tag w.to
    goes_on = w.result ∙ go_on _ _ _ w.to (omega (arith, w.at))

    finish :
        Found tag w.to.start (find_loop (length (g ∷ front) + 1) (length (g ∷ front)) tag w.to)
          ⊎ Walked 1
              (length (g ∷ front))
              tag
              w.to.start
              (g ∷ front)
              (0 + length front + 1)
              (find_loop (length (g ∷ front) + 1) (length (g ∷ front)) tag w.to)
        → Found tag it.start r
          ⊎ Missed ((g ∷ front) ++ (f ∷ rest)) (length (g ∷ front)) tag it.start r
    finish (inl q) = inl record {
      to = q.to;
      field = q.field;
      result = goes_on ∙ q.result;
      start = q.start ∙ w.same;
      current = q.current;
      is_wanted = q.is_wanted;
      tagged = q.tagged;
    }
    finish (inr q) = inr record {
      to = q.to;
      result = goes_on ∙ q.result ∙ stop _ _ _ q.to (omega (arith, q.at));
      start = q.same ∙ w.same;
      at = q.at ∙ omega arith;
      none_wanted = All-append _ (g ∷ front) (f ∷ rest) q.none_wanted u;
    }

-- In the table of a message the iterator stands at a field, with the fields `front` before it:
-- `pb_field_iter_find` returns true at a field that has the tag and is no extension, or it returns
-- false at the field where it stood, and then no field of the table has the tag and is no extension.
pub pb_field_iter_find-cases :
    (front : List PbField) (f : PbField) (back : List PbField) (end : PbField) (tag : ℕ)
    (it : FieldIter)
    → IsTable (front ++ (f ∷ back)) end
    → it.start ≡ (front ++ (f ∷ back)) ++ (end ∷ [])
    → it.pos ≡ length front
    → Found tag it.start (pb_field_iter_find tag it)
      ⊎ Missed (front ++ (f ∷ back)) it.pos tag it.start (pb_field_iter_find tag it)
unfolding pb_field_iter_find
pb_field_iter_find-cases front f back end tag it t e p = from it.pos p
  where
    rounds : length it.start ≡ length back + 1 + (length front + 1)
    rounds = omega (
      arith,
      ap length e,
      length-append (front ++ (f ∷ back)) (end ∷ []),
      length-append front (f ∷ back),
    )

    search_on :
        {r : Run FieldIter (Unit {0}) (Unit {0})}
        → Found tag it.start r
          ⊎ Walked (length front + 1) (length front) tag it.start (f ∷ back) 0 r
        → Found tag it.start r ⊎ Missed (front ++ (f ∷ back)) (length front) tag it.start r
    search_on (inl q) = inl q
    search_on (inr w) = around front (f ∷ back) end tag it t (omega arith) w.none_wanted w e

    from :
        (start : ℕ)
        → start ≡ length front
        → Found tag it.start (find_loop (length it.start) start tag it)
          ⊎ Missed
              (front ++ (f ∷ back))
              start
              tag
              it.start
              (find_loop (length it.start) start tag it)
    from start q = rw q (
        search_on (
          walk back front [] f end (length front + 1) (length front) tag (length it.start) it
            (rw append-nil (e ∙ append_assoc front (f ∷ back) (end ∷ []))) p
            (record {
              tags = rw append-nil ((All-front _ front (f ∷ back) t.tags).1);
              last = t.last;
            })
            (inl (omega arith)) rounds))
