-- ===== src/Nanopb/MessageDecoder/Counts.antt =====
-- The checks behind the loop of `pb_decode_noinit`, in any table: how many required fields they ask
-- for, and where the fields were seen.
use app_card.Base.{
  ℕ, zero, suc, ◌+◌, ◌∙◌, ◌^◌, refl, append_assoc, Run, ◌≤◌, ◌<◌, ◌≡◌, ◌≢◌, ap, List, [], ◌∷◌, ◌++◌,
  length, length-append, get_elem?, some, ok, sym, All, arith, ltb, ◌==◌, if◌then◌else◌, false,
  subst,
}
use mathlib.Core.List.{Mem}
use app_card.Nanopb.Pb.{PbField, htype, htype_required, missing_required_field}
use app_card.Nanopb.FieldIter.{FieldIter, begun, advanced}
use app_card.Nanopb.FieldIter.Find.{All-front}
use app_card.Nanopb.FieldIter.Step.{
  get_elem?-append_length, get_elem?-append_next, next_end, next_inside, advanced_pos, IsTable,
}
use app_card.Nanopb.Decoders.{Input, FieldDecoder}
use app_card.Nanopb.Runtime.{Runtime, fail}
use app_card.Nanopb.DecodeField.{MessageDecoder}
use app_card.Nanopb.MessageDecoder.{
  Seen, End, Progress, seek_end, required_count, check_required, finish, is_short,
}
use app_card.Nanopb.MessageDecoder.Words.{marked}
use app_card.Nanopb.MessageDecoder.Required.{check_required-marked}

-- How many fields of a table are required.
abbrev pub required_in : List PbField → ℕ
required_in [] = 0
required_in (f ∷ fs) = (if htype f.type == htype_required then 1 else 0) + required_in fs

pub required_in-append :
    (fs gs : List PbField) → required_in (fs ++ gs) ≡ required_in fs + required_in gs
required_in-append [] gs = omega arith
required_in-append (f ∷ fs) gs = omega (arith, required_in-append fs gs)

-- The first 64 of so many fields.
abbrev pub upto_64 : ℕ → ℕ
upto_64 n = if ltb 64 n then 64 else n

-- The required fields in front of the field that the iterator moves to.
advanced_index :
    (f g : PbField) (it : FieldIter)
    → it.required_field_index + 1 < 2 ^ 32
    → (advanced f g it).required_field_index ≡ it.required_field_index + required_in (f ∷ [])
unfolding advanced
advanced_index f g it small = ground arith

abbrev last_end : FieldIter → PbField → PbField → End
last_end iter first f = record {
  iter = begun iter.start iter.dest_struct first;
  req_field_count = iter.required_field_index;
  last_type = f.type;
}

counted :
    (n : ℕ) (iter : FieldIter) (first f : PbField)
    → first.tag ≢ 0
    → iter.required_field_index ≡ n
    → n + 1 < 2 ^ 32
    → required_count (last_end iter first f) first ≡ upto_64 (n + required_in (f ∷ []))
counted n iter first f tagged index small = ground (arith, tagged, index)

-- The end of the table was found, with so many required fields.
pub record Counts (k : End → FieldDecoder) (first : PbField) (n : ℕ) (s : Input)
    (r : Run Input (Unit {0}) (Unit {0})) : Type 0 where
  pub end : End
  pub result : r ≡ k end s
  pub current : get_elem? end.iter.start end.iter.pos ≡ some first
  pub count : required_count end first ≡ n

-- From a field the way to the end of the table passes the required fields behind it.
seek_end-Counts :
    (k : End → FieldDecoder) (first end : PbField) (s : Input) (back front : List PbField)
    (f : PbField) (iter : FieldIter) (fuel : ℕ)
    → first.tag ≢ 0
    → iter.start ≡ front ++ (f ∷ (back ++ (end ∷ [])))
    → iter.pos ≡ length front
    → get_elem? iter.start 0 ≡ some first
    → IsTable (f ∷ back) end
    → iter.required_field_index + length (f ∷ back) < 2 ^ 32
    → length back < fuel
    → Counts k first
        (upto_64 (iter.required_field_index + required_in (f ∷ back)))
        s
        (seek_end k fuel iter s)
unfolding seek_end
seek_end-Counts k first end s back front f iter zero tag table pos begins t few enough =
    absurd (omega arith)
seek_end-Counts k first end s [] front f iter (suc fuel) tag table pos begins t few enough =
    let current : get_elem? iter.start iter.pos ≡ some f =
      rw (table, pos) (get_elem?-append_length front f (end ∷ [])) in
    let over =
      next_end iter f end first current (rw (table, pos) (get_elem?-append_next front f end []))
        begins (t.tags.0) t.last in
    record {
      end = last_end iter first f;
      result = rw (current, over) refl;
      current = begins;
      count = counted iter.required_field_index iter first f tag refl (omega (arith, few));
    }
seek_end-Counts k first end s (g ∷ back) front f iter (suc fuel) tag table pos begins t few enough =
    let current : get_elem? iter.start iter.pos ≡ some f =
      rw (table, pos) (get_elem?-append_length front f (g ∷ (back ++ (end ∷ [])))) in
    let next =
      next_inside iter f g current
        (rw (table, pos) (get_elem?-append_next front f g (back ++ (end ∷ [])))) (t.tags.0)
        (t.tags.1.0) in
    let (moved, same) = advanced_pos f g iter in
    let index = advanced_index f g iter (omega (arith, few)) in
    let size = length-append front (f ∷ []) in
    let passed : (advanced f g iter).required_field_index + required_in (g ∷ back)
        ≡ iter.required_field_index + required_in (f ∷ g ∷ back) =
      omega (arith, index) in
    let one : required_in (f ∷ []) ≤ 1 = ground arith in
    let rest =
      seek_end-Counts k first end s back (front ++ (f ∷ [])) g (advanced f g iter) fuel tag
        (same ∙ table ∙ sym (append_assoc front (f ∷ []) (g ∷ (back ++ (end ∷ [])))))
        (omega (arith, moved, pos, size)) (rw same begins)
        (record { tags = t.tags.1; last = t.last }) (omega (arith, few, index, one))
        (omega (arith, enough)) in
    record {
      end = rest.end;
      result = rw (current, next) rest.result;
      current = rest.current;
      count = rest.count ∙ ap upto_64 passed;
    }

-- The loop stands at the field `f` of a table: `index` counts the required fields in front.
pub record StandsAtField (front : List PbField) (f : PbField) (back : List PbField) (end : PbField)
    (p : Progress) : Type 0 where
  pub table : p.iter.start ≡ front ++ (f ∷ (back ++ (end ∷ [])))
  pub pos : p.iter.pos ≡ length front
  pub index : p.iter.required_field_index ≡ required_in front
  pub is_table : IsTable (front ++ (f ∷ back)) end
  pub few : length (front ++ (f ∷ back)) < 2 ^ 32

required_in-le : (fs : List PbField) → required_in fs ≤ length fs
required_in-le [] = omega arith
required_in-le (f ∷ fs) =
    let one : required_in (f ∷ []) ≤ 1 = ground arith in omega (arith, one, required_in-le fs)

head :
    (front : List PbField) (f : PbField) (back behind : List PbField)
    → All (λ (e : PbField). e.tag ≢ 0) (front ++ (f ∷ back))
    → (first : PbField) × (get_elem? (front ++ (f ∷ (back ++ behind))) 0 ≡ some first)
      × (first.tag ≢ 0)
head [] f back behind tags = (f, refl, tags.0)
head (g ∷ front) f back behind tags = (g, refl, tags.0)

module _ (rt : Runtime) (message message_noinit : MessageDecoder) (depth links at : ℕ) where
  -- The check of fixed arrays does not fail.
  pub finish-Counts :
      (front : List PbField) (f : PbField) (back : List PbField) (end first : PbField)
      (p : Progress) (s : Input)
      → p.iter.start ≡ front ++ (f ∷ (back ++ (end ∷ [])))
      → p.iter.pos ≡ length front
      → IsTable (f ∷ back) end
      → p.iter.required_field_index + length (f ∷ back) < 2 ^ 32
      → get_elem? p.iter.start 0 ≡ some first
      → first.tag ≢ 0
      → is_short p.fixed_count_field p.iter at s ≡ false
      → Counts
          (check_required p.seen)
          first
          (upto_64 (p.iter.required_field_index + required_in (f ∷ back)))
          s
          (finish rt message message_noinit depth links at p s)
  unfolding finish
  finish-Counts front f back end first p s table pos t few begins tag full =
      let long = length-append front (f ∷ (back ++ (end ∷ []))) in
      let c =
        seek_end-Counts (check_required p.seen) first end s back front f p.iter
          (length p.iter.start) tag table pos begins t few
          (omega (arith, ap length table, long, length-append back (end ∷ []))) in
      record { end = c.end; result = rw full c.result; current = c.current; count = c.count }

  -- The loop of `pb_decode_noinit` at a field of a table, of less than 2 ^ 32 fields, where the
  -- iterator counts the required fields in front, the required fields with the indices `is` were
  -- noted, and a repeated field of fixed size, if there is one, is full. The checks behind the loop
  -- ask for the required fields of the table, the first 64 if there are more: they pass if
  -- the index of each of these was noted, and otherwise fail with "missing required field".
  pub finish-marked :
      (is : List ℕ) (front : List PbField) (f : PbField) (back : List PbField) (end : PbField)
      (p : Progress) (s : Input)
      → StandsAtField front f back end p
      → p.seen ≡ marked is
      → is_short p.fixed_count_field p.iter at s ≡ false
      → All (λ i. i < upto_64 (required_in (front ++ (f ∷ back)))) is
      → (((i : ℕ) → i < upto_64 (required_in (front ++ (f ∷ back))) → Mem i is)
          → finish rt message message_noinit depth links at p s ≡ ok tt s)
        × ((i : ℕ)
            → i < upto_64 (required_in (front ++ (f ∷ back)))
            → ¬ Mem i is
            → finish rt message message_noinit depth links at p s ≡ fail missing_required_field s)
  finish-marked is front f back end p s stands seen full below =
      let (first, begins', tag) = head front f back (end ∷ []) (stands.is_table.tags) in
      let begins : get_elem? p.iter.start 0 ≡ some first = rw (stands.table) begins' in
      let t : IsTable (f ∷ back) end = record {
        tags = (All-front (λ (e : PbField). e.tag ≢ 0) front (f ∷ back) (stands.is_table.tags)).1;
        last = stands.is_table.last;
      } in
      let few : p.iter.required_field_index + length (f ∷ back) < 2 ^ 32 =
        omega
          (arith, stands.few, stands.index, length-append front (f ∷ back), required_in-le front) in
      let all : p.iter.required_field_index + required_in (f ∷ back)
          ≡ required_in (front ++ (f ∷ back)) =
        omega (arith, stands.index, required_in-append front (f ∷ back)) in
      let c =
        finish-Counts front f back end first p s (stands.table) (stands.pos) t few begins tag
          full in
      let count = c.count ∙ ap upto_64 all in
      let checks =
        check_required-marked is c.end first s c.current
          (subst (λ (n : ℕ). All (λ i. i < n) is) (sym count) below) in
      let result =
        subst
          (λ (seen : Seen).
            finish rt message message_noinit depth links at p s ≡ check_required seen c.end s)
          seen c.result in
      (
        λ all. result ∙ checks.0 (λ i lt. all i (omega (arith, lt, count))),
        λ i lt missing. result ∙ checks.1 i (omega (arith, lt, count)) missing,
      )
