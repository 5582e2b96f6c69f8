-- ===== src/Nanopb/DecodeExtension/Find.antt =====
-- The search for the extension field of a message that has none.
use app_card.Base.{
  ℕ, zero, suc, ◌+◌, ◌≤◌, ◌<◌, ◌≡◌, refl, ap, ◌∙◌, subst, ◌≢◌, ◌⊎◌, inl, inr, false, Bool-cases,
  some, List, [], ◌∷◌, ◌++◌, ◌==◌, if◌then◌else◌, length, get_elem?, Run, failed, All, arith,
  length-append, append_assoc,
}
use app_card.Nanopb.Pb.{PbField, ltype, ltype_extension}
use app_card.Nanopb.FieldIter.{FieldIter}
use app_card.Nanopb.FieldIter.Step.{IsTable, get_elem?-append_length, wrap, Leads, leads}
use app_card.Nanopb.FieldIter.Find.{All-front}
use app_card.Nanopb.FieldIter.Inside.{Split, split}
use app_card.Nanopb.DecodeExtension.{find_extension_loop, find_extension_field}

-- No field is the placeholder of extensions.
abbrev pub NoExtension : List PbField → Type 0
NoExtension fs = All (λ f. (ltype f.type == ltype_extension) ≡ false) fs

round :
    (fuel start pos : ℕ) (it : FieldIter) (f : PbField)
    → get_elem? it.start it.pos ≡ some f
    → (ltype f.type == ltype_extension) ≡ false
    → (l : Leads it pos)
    → find_extension_loop (suc fuel) start it
      ≡ (if l.to.pos == start then failed tt else find_extension_loop fuel start) l.to
unfolding find_extension_loop
round fuel start pos it f e w l = rw (e, w) (l.step _)

-- The search comes back to where it started.
pub record Returned (start : ℕ) (table : List PbField) (r : Run FieldIter (Unit {0}) (Unit {0}))
    : Type 0 where
  pub to : FieldIter
  pub result : r ≡ failed tt to
  pub same : to.start ≡ table
  pub at : to.pos ≡ start

module _ (fs : List PbField) (end : PbField) (t : IsTable fs end) (plain : NoExtension fs)
    (start : ℕ) (inside : start < length fs) where
  -- One round from the field at an index, wherever that leads.
  lead :
      (it : FieldIter)
      → it.start ≡ fs ++ (end ∷ [])
      → (s : Split fs it.pos) → Leads it (wrap s.back (length s.front))
  lead it e s =
      leads s.front s.back s.at end it
        (e
          ∙ ap (λ (x : List PbField). x ++ (end ∷ [])) s.whole
          ∙ append_assoc s.front (s.at ∷ s.back) (end ∷ []))
        s.index
        (record {
          tags =
              (All-front _ s.front (s.at ∷ s.back) (subst (All (λ f. f.tag ≢ 0)) s.whole t.tags)).1;
          last = t.last;
        })

  plain_at : (i : ℕ) (s : Split fs i) → (ltype s.at.type == ltype_extension) ≡ false
  plain_at i s =
      ((All-front _ s.front (s.at ∷ s.back)
        (subst (All (λ f. (ltype f.type == ltype_extension) ≡ false)) s.whole plain)).1
      ).0

  here :
      (it : FieldIter)
      → it.start ≡ fs ++ (end ∷ [])
      → (s : Split fs it.pos) → get_elem? it.start it.pos ≡ some s.at
  here it e s =
      let table =
        e
        ∙ ap (λ (x : List PbField). x ++ (end ∷ [])) s.whole
        ∙ append_assoc s.front (s.at ∷ s.back) (end ∷ []) in
      rw (table, s.index) (get_elem?-append_length s.front s.at (s.back ++ (end ∷ [])))

  wrap_cases :
      (back : List PbField) (n : ℕ)
      → ((wrap back n ≡ n + 1) × (0 < length back)) ⊎ ((wrap back n ≡ 0) × (length back ≡ 0))
  wrap_cases [] n = inr (refl, refl)
  wrap_cases (f ∷ back) n = inl (refl, omega arith)

  -- How many rounds are left, on the way around.
  abbrev Ahead : ℕ → ℕ → Type 0
  Ahead pos left =
      ((pos < start) × (pos + left ≡ start)) ⊎ ((start ≤ pos) × (pos + left ≡ length fs + start))

  -- The next round is nearer.
  nearer :
      (pos left pos' : ℕ) (s : Split fs pos)
      → pos < length fs
      → Ahead pos (suc left)
      → pos' ≡ wrap s.back (length s.front)
      → pos' ≢ start
      → (pos' < length fs) × Ahead pos' left
  nearer pos left pos' s h d e ne =
      let size : length fs ≡ length s.front + length (s.at ∷ s.back) =
        ap length s.whole ∙ length-append s.front (s.at ∷ s.back) in
      let index = s.index in
      ground (arith, wrap_cases s.back (length s.front), size, index, d, e, ne)

  go :
      (left fuel : ℕ) (it : FieldIter)
      → it.start ≡ fs ++ (end ∷ [])
      → it.pos < length fs
      → Ahead it.pos left
      → left ≤ fuel
      → Returned start it.start (find_extension_loop fuel start it)
  go zero fuel it e h d enough = absurd (ground (arith, d))
  go (suc left) zero it e h d enough = absurd (omega arith)
  go (suc left) (suc fuel) it e h d enough =
      let s = split fs it.pos h in
      let l = lead it e s in
      let first = round fuel start _ it s.at (here it e s) (plain_at it.pos s) l in
      elim (Bool-cases (l.to.pos == start)) [
        | inl back ↦ record {
          to = l.to;
          result = first ∙ rw back refl;
          same = l.start;
          at = ground (arith, back);
        }
        | inr on ↦
            let (h', d') = nearer it.pos left l.to.pos s h d l.at (ground (arith, on)) in
            let rest = go left fuel l.to (l.start ∙ e) h' d' (omega arith) in
            record {
              to = rest.to;
              result = first ∙ rw on rest.result;
              same = rest.same ∙ l.start;
              at = rest.at;
            }
      ]

-- In the table of a message without extensions, from any of its fields, `find_extension_field`
-- returns false at the field where it stood.
pub find_extension_field-Returned :
    (fs : List PbField) (end : PbField) (it : FieldIter)
    → IsTable fs end
    → NoExtension fs
    → it.start ≡ fs ++ (end ∷ [])
    → it.pos < length fs
    → Returned it.pos it.start (find_extension_field it)
unfolding find_extension_field
find_extension_field-Returned fs end it t plain e h =
    go fs end t plain it.pos h (length fs) (length it.start) it e h (inr (omega arith, omega arith))
      (omega (arith, ap length e, length-append fs (end ∷ [])))
