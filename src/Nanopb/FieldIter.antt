-- ===== src/Nanopb/FieldIter.antt =====
-- nanopb's pb_common.c: the iteration over the fields of a message structure.
pub mod Step
pub mod Walk
pub mod Find
pub mod Inside
use app_card.Base.{
  ℕ, zero, suc, ◌+◌, ◌*◌, ◌%◌, ◌^◌, Bool, not, ◌&&◌, Option, none, some, List, [], ◌∷◌, ◌==◌,
  if◌then◌else◌, length, get_elem?, Run, ok, failed, fault, stuck, Cmd,
}
use app_card.Nanopb.Pb.{
  PbField, atype, htype, ltype, atype_static, atype_pointer, htype_required, htype_repeated,
  htype_oneof, ltype_extension, pb_size_max, add_ssize,
}

-- pb_field_iter_t. `start` is the descriptor table and `pos` the index of the current field in it;
-- the other pointers are addresses.
pub record FieldIter : Type 0 where
  pub start : List PbField
  pub pos : ℕ
  pub required_field_index : ℕ
  pub dest_struct : ℕ
  pub p_data : ℕ
  pub p_size : ℕ

-- `true` is `ok` and `false` is `failed`: the iterator is updated either way.
abbrev pub Iteration : Type 0
Iteration = Cmd FieldIter (Unit {0}) (Unit {0})

abbrev pub with_field : Option PbField → (PbField → Iteration) → Iteration
with_field none k iter = fault
with_field (some f) k iter = k f iter

abbrev pub begun : List PbField → ℕ → PbField → FieldIter
begun fields dest_struct f =
    let p_data = (dest_struct + f.data_offset) % 2 ^ 64 in
    record {
      start = fields;
      pos = 0;
      required_field_index = 0;
      dest_struct = dest_struct;
      p_data = p_data;
      p_size = add_ssize p_data f.size_offset;
    }

unfoldable pub pb_field_iter_begin : List PbField → ℕ → Iteration
pb_field_iter_begin fields dest_struct = with_field (get_elem? fields 0) λ f iter.
    if f.tag == 0
    then failed tt (begun fields dest_struct f)
    else ok tt (begun fields dest_struct f)

-- What the current field takes up in the structure.
abbrev pub prev_size : PbField → ℕ
prev_size prev =
    if atype prev.type == atype_static && htype prev.type == htype_repeated
    then prev.data_size * prev.array_size % 2 ^ 64
    else if atype prev.type == atype_pointer
    then 8
    else prev.data_size

abbrev pub in_union : PbField → PbField → Bool
in_union prev f =
    htype prev.type == htype_oneof && htype f.type == htype_oneof && f.data_offset == pb_size_max

-- From the field `prev` to the field `f` behind it.
unfoldable pub advanced : PbField → PbField → FieldIter → FieldIter
advanced prev f iter =
    let p_data = (iter.p_data + prev_size prev + f.data_offset) % 2 ^ 64 in
    if in_union prev f then record iter { pos = iter.pos + 1 } else record iter {
      pos = iter.pos + 1;
      required_field_index =
          if htype prev.type == htype_required
          then (iter.required_field_index + 1) % 2 ^ 32
          else iter.required_field_index;
      p_data = p_data;
      p_size = add_ssize p_data f.size_offset;
    }

-- A call whose result is not used.
abbrev pub as_false : Run FieldIter (Unit {0}) (Unit {0}) → Run FieldIter (Unit {0}) (Unit {0})
as_false (ok a iter) = failed tt iter
as_false (failed e iter) = failed tt iter
as_false fault = fault
as_false stuck = stuck

unfoldable pub pb_field_iter_next : Iteration
unfolding pb_field_iter_begin advanced
pb_field_iter_next iter =
    with_field (get_elem? iter.start iter.pos)
      (λ prev it.
        if prev.tag == 0
        then failed tt it
        else with_field (get_elem? it.start (it.pos + 1))
            (λ f it'.
              if f.tag == 0
              then as_false (pb_field_iter_begin it'.start it'.dest_struct it')
              else ok tt (advanced prev f it'))
            it)
      iter

-- The field that `pb_field_iter_find` looks for.
unfoldable pub wanted : ℕ → PbField → Bool
wanted tag f = f.tag == tag && not (ltype f.type == ltype_extension)

abbrev pub either_way :
    Run FieldIter (Unit {0}) (Unit {0}) → Iteration → Run FieldIter (Unit {0}) (Unit {0})
either_way (ok a iter) k = k iter
either_way (failed e iter) k = k iter
either_way fault k = fault
either_way stuck k = stuck

-- The loop of `pb_field_iter_find`, which stops at the index `start`.
unfoldable pub find_loop : ℕ → ℕ → ℕ → Iteration
find_loop zero start tag iter = stuck
find_loop (suc fuel) start tag iter =
    with_field (get_elem? iter.start iter.pos)
      (λ f it.
        if wanted tag f
        then ok tt it
        else either_way (pb_field_iter_next it)
            λ it'. (if it'.pos == start then failed tt else find_loop fuel start tag) it')
      iter

-- A round for each field of the table.
unfoldable pub pb_field_iter_find : ℕ → Iteration
unfolding wanted pb_field_iter_next find_loop
pb_field_iter_find tag iter = find_loop (length iter.start) iter.pos tag iter
