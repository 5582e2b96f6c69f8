-- ===== src/Nanopb/Default.antt =====
-- nanopb's pb_encode.c: the test of proto3 for a field that has its default value.
use app_card.Base.{
  ℕ, zero, suc, ◌+◌, Bool, true, false, not, ◌&&◌, Option, none, some, List, [], length, get_elem?,
  ◌==◌, ltb, if◌then◌else◌, Run, ok, failed, fault, stuck,
}
use app_card.Nanopb.Pb.{
  PbField, atype, htype, ltype, atype_static, atype_pointer, htype_required, htype_optional,
  htype_repeated, htype_oneof, ltype_last_packable, ltype_bytes, ltype_string, ltype_submessage,
  ltype_fixed_length_bytes, add_ssize,
}
use app_card.Nanopb.Memory.{Memory, load}
use app_card.Nanopb.FieldIter.{FieldIter, pb_field_iter_begin, pb_field_iter_next}
use app_card.Nanopb.Encoders.{safe_read_bool}
use app_card.Nanopb.Environment.{Environment, load_ptr}

-- An iterator on the stack, before it is initialised.
abbrev pub uninitialised : FieldIter
uninitialised = record {
  start = [];
  pos = 0;
  required_field_index = 0;
  dest_struct = 0;
  p_data = 0;
  p_size = 0;
}

unfoldable pub all_zero : ℕ → Memory → ℕ → Bool
all_zero zero m a = true
all_zero (suc n) m a = m a == 0 && all_zero n m (a + 1)

-- `none` is a table without an end, or messages that are nested deeper than the fuel.
abbrev pub and_also : Option Bool → Option Bool → Option Bool
and_also none rest = none
and_also (some b) rest = if b then rest else some false

abbrev pub while_next :
    Run FieldIter (Unit {0}) (Unit {0}) → (FieldIter → Option Bool) → Option Bool
while_next (ok a iter) k = k iter
while_next (failed e iter) k = some true
while_next fault k = none
while_next stuck k = none

module _ (env : Environment) (m : Memory) where
  -- The catch-all branch.
  abbrev pub zero_value : PbField → ℕ → Option Bool
  zero_value field p_data = some (all_zero field.data_size m p_data)

  -- From "Rest is proto3 singular fields" on. `message` is the loop over a submessage.
  abbrev pub check_singular : (List PbField → ℕ → Option Bool) → PbField → ℕ → Option Bool
  check_singular message field p_data =
      let lt = ltype field.type in
      if atype field.type == atype_static && lt == ltype_bytes
      then some (load 4 m p_data == 0)
      else if atype field.type == atype_static && lt == ltype_string
      then some (m p_data == 0)
      else if atype field.type == atype_static && lt == ltype_fixed_length_bytes
      then some (field.data_size == 0)
      else if atype field.type == atype_static && lt == ltype_submessage
      then message (env.tables field.ptr) p_data
      else if atype field.type == atype_pointer && ltb ltype_last_packable lt
      then some (load_ptr m p_data == 0)
      else zero_value field p_data

  unfoldable pub check_field : (List PbField → ℕ → Option Bool) → PbField → ℕ → Option Bool
  unfolding all_zero
  check_field message field p_data =
      let ht = htype field.type in
      let p_size = add_ssize p_data field.size_offset in
      if ht == htype_required
      then some false
      else if ht == htype_repeated && not (field.size_offset == 0)
      then some (load 4 m p_size == 0)
      else if ht == htype_repeated && atype field.type == atype_static
      then some false
      else if ht == htype_oneof
      then some (load 4 m p_size == 0)
      else if ht == htype_optional && not (field.size_offset == 0)
      then some (not (safe_read_bool m p_size))
      else check_singular message field p_data

  abbrev pub check_current : (PbField → ℕ → Option Bool) → Option PbField → ℕ → Option Bool
  check_current check none p_data = none
  check_current check (some f) p_data = check f p_data

  -- The loop over the fields of a submessage.
  unfoldable pub check_loop : (PbField → ℕ → Option Bool) → ℕ → FieldIter → Option Bool
  check_loop check zero iter = none
  check_loop check (suc fuel) iter =
      and_also (check_current check (get_elem? iter.start iter.pos) iter.p_data)
        (while_next (pb_field_iter_next iter) (check_loop check fuel))

  unfoldable pub check_message : (PbField → ℕ → Option Bool) → List PbField → ℕ → Option Bool
  unfolding check_loop
  check_message check fields p_data =
      while_next (pb_field_iter_begin fields p_data uninitialised)
        (check_loop check (length fields))

  -- The fuel is for messages inside messages.
  unfoldable pub pb_check_proto3_default_value : ℕ → PbField → ℕ → Option Bool
  unfolding check_field check_message
  pb_check_proto3_default_value zero field p_data = none
  pb_check_proto3_default_value (suc depth) field p_data =
      check_field (check_message (pb_check_proto3_default_value depth)) field p_data
