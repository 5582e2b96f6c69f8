-- ===== src/Nanopb/FieldIter/Step.antt =====
-- One step of the iteration, inside a table and at its end.
use app_card.Base.{
  ℕ, suc, ◌+◌, ◌≡◌, ◌≢◌, refl, ap, ◌∙◌, some, List, [], ◌∷◌, ◌++◌, length, get_elem?, ok, failed,
  All, arith,
}
use app_card.Nanopb.Pb.{PbField}
use app_card.Nanopb.FieldIter.{
  FieldIter, Iteration, begun, advanced, pb_field_iter_begin, pb_field_iter_next, either_way,
}

-- The descriptor table of a message with the fields `fs`: none has tag 0, and the last entry has.
pub record IsTable (fs : List PbField) (end : PbField) : Type 0 where
  pub tags : All (λ f. f.tag ≢ 0) fs
  pub last : end.tag ≡ 0

pub get_elem?-append_length :
    (xs : List PbField) (x : PbField) (ys : List PbField)
    → get_elem? (xs ++ (x ∷ ys)) (length xs) ≡ some x
get_elem?-append_length [] x ys = refl
get_elem?-append_length (y ∷ xs) x ys = get_elem?-append_length xs x ys

pub get_elem?-append_next :
    (xs : List PbField) (x y : PbField) (ys : List PbField)
    → get_elem? (xs ++ (x ∷ y ∷ ys)) (length xs + 1) ≡ some y
get_elem?-append_next [] x y ys = refl
get_elem?-append_next (z ∷ xs) x y ys = rw shifted (get_elem?-append_next xs x y ys)
  where
    shifted : suc (length xs) + 1 ≡ suc (length xs + 1)
    shifted = omega arith

pub advanced_pos :
    (f g : PbField) (it : FieldIter)
    → ((advanced f g it).pos ≡ it.pos + 1) × ((advanced f g it).start ≡ it.start)
unfolding advanced
advanced_pos f g it = ground arith

-- One step, inside the table and at its end.
pub next_inside :
    (it : FieldIter) (f g : PbField)
    → get_elem? it.start it.pos ≡ some f
    → get_elem? it.start (it.pos + 1) ≡ some g
    → f.tag ≢ 0
    → g.tag ≢ 0
    → pb_field_iter_next it ≡ ok tt (advanced f g it)
unfolding pb_field_iter_next
next_inside it f g e e' hf hg = ground (arith, e, e')

pub next_end :
    (it : FieldIter) (f g h : PbField)
    → get_elem? it.start it.pos ≡ some f
    → get_elem? it.start (it.pos + 1) ≡ some g
    → get_elem? it.start 0 ≡ some h
    → f.tag ≢ 0
    → g.tag ≡ 0
    → pb_field_iter_next it ≡ failed tt (begun it.start it.dest_struct h)
unfolding pb_field_iter_next pb_field_iter_begin
next_end it f g h e e' e0 hf hg = ground (arith, e, e', e0)

-- The index behind the field at `n`, where `rest` is what the table has behind that.
abbrev pub wrap : List PbField → ℕ → ℕ
wrap [] n = 0
wrap (f ∷ rest) n = n + 1

-- The iterator `to` that a step leads to, whatever the step returns.
pub record Leads (it : FieldIter) (pos : ℕ) : Type 0 where
  pub to : FieldIter
  pub start : to.start ≡ it.start
  pub at : to.pos ≡ pos
  pub step : (k : Iteration) → either_way (pb_field_iter_next it) k ≡ k to

pub leads :
    (front rest : List PbField) (f end : PbField) (it : FieldIter)
    → it.start ≡ front ++ (f ∷ (rest ++ (end ∷ [])))
    → it.pos ≡ length front
    → IsTable (f ∷ rest) end
    → Leads it (wrap rest (length front))
leads front [] f end it e p t =
    let (h, e0) = head front in
    record {
      to = begun it.start it.dest_struct h;
      start = refl;
      at = refl;
      step = λ k. rw (
          next_end it f end h (rw (e, p) (get_elem?-append_length front f (end ∷ [])))
            (rw (e, p) (get_elem?-append_next front f end [])) (rw e e0) (t.tags.0) t.last);
    }
  where
    head :
        (front : List PbField) → (h : PbField) × (get_elem? (front ++ (f ∷ (end ∷ []))) 0 ≡ some h)
    head [] = (f, refl)
    head (g ∷ front) = (g, refl)
leads front (g ∷ rest) f end it e p t = record {
  to = advanced f g it;
  start = (advanced_pos f g it).1;
  at = (advanced_pos f g it).0 ∙ ap (λ (n : ℕ). n + 1) p;
  step = λ k. rw (
      next_inside it f g (rw (e, p) (get_elem?-append_length front f _))
        (rw (e, p) (get_elem?-append_next front f g _)) (t.tags.0) ((t.tags.1).0));
}
