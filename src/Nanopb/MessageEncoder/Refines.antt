-- ===== src/Nanopb/MessageEncoder/Refines.antt =====
-- `pb_encode` implements the wire format of messages.
use app_card.Base.{
  ℕ, zero, suc, ◌+◌, ◌<◌, ◌≡◌, ◌≢◌, refl, ◌∙◌, sym, true, false, Bool-cases, ◌⊎◌, inl, inr, some,
  List, [], ◌∷◌, ◌++◌, append_assoc, length, length-append, ◌==◌, ==_iff, if◌then◌else◌, get_elem?,
  Run, ◌>>◌, arith,
}
use mathlib.Core.Path.{fun_ext}
use app_card.Nanopb.Pb.{PbField}
use app_card.Nanopb.Memory.{Memory}
use app_card.Nanopb.OStream.{Encoder}
use app_card.Nanopb.FieldIter.{FieldIter, begun, advanced, pb_field_iter_begin, pb_field_iter_next}
use app_card.Nanopb.FieldIter.Step.{
  get_elem?-append_length, get_elem?-append_next, next_inside, next_end, advanced_pos,
}
use app_card.Nanopb.Encoders.Emit.{IsBytes}
use app_card.Nanopb.Environment.{Environment}
use app_card.Nanopb.Default.{uninitialised}
use app_card.Nanopb.MessageEncoder.{while_next, encode_loop, encode_current, pb_encode}
use app_card.Nanopb.MessageEncoder.Wire.{
  Wire, UserWire, then_bytes, entry_bytes, fields_bytes, table_bytes, message_bytes,
}
use app_card.Nanopb.MessageEncoder.Implements.{
  Implements, none-Implements, nothing-Implements, seq-Implements,
}
use app_card.Nanopb.MessageEncoder.Fields.{IsFaithful, current-Implements}

module _ (env : Environment) (m : Memory) (encode : PbField → ℕ → Encoder)
    (entry : PbField → ℕ → Wire)
    (implements : (field : PbField) (p : ℕ) → Implements (encode field p) (entry field p)) where
  loop_step :
      (fuel : ℕ) (it : FieldIter) (f : PbField) (r : Run FieldIter (Unit {0}) (Unit {0}))
      → get_elem? it.start it.pos ≡ some f
      → pb_field_iter_next it ≡ r
      → encode_loop env m encode (suc fuel) it
        ≡ (encode f it.p_data >> while_next env m r (encode_loop env m encode fuel))
  unfolding encode_loop
  loop_step fuel it f r e e' = fun_ext λ s. rw (e, e') refl

  loop-Implements :
      (rest front : List PbField) (f : PbField) (fuel : ℕ) (it : FieldIter)
      → it.start ≡ front ++ (f ∷ rest)
      → it.pos ≡ length front
      → f.tag ≢ 0
      → length rest < fuel
      → Implements (encode_loop env m encode fuel it) (fields_bytes env m entry (f ∷ rest) it)
  unfolding fields_bytes
  loop-Implements [] front f fuel it e p t enough = none-Implements
  loop-Implements (g ∷ rest) front f zero it e p t enough = absurd (omega arith)
  loop-Implements (g ∷ rest) front f (suc fuel) it e p t enough =
      by_end (Bool-cases (g.tag == 0)) λ more.
        loop-Implements rest (front ++ (f ∷ [])) g fuel (advanced f g it)
          ((advanced_pos f g it).1 ∙ e ∙ sym (append_assoc front (f ∷ []) (g ∷ rest)))
          (omega (arith, (advanced_pos f g it).0, p, length-append front (f ∷ []))) more
          (omega arith)
    where
      here : get_elem? it.start it.pos ≡ some f
      here = rw (e, p) (get_elem?-append_length front f (g ∷ rest))

      there : get_elem? it.start (it.pos + 1) ≡ some g
      there = rw (e, p) (get_elem?-append_next front f g rest)

      first : (h : PbField) × (get_elem? it.start 0 ≡ some h)
      first = at_front front e
        where
          at_front :
              (xs : List PbField)
              → it.start ≡ xs ++ (f ∷ g ∷ rest)
              → (h : PbField) × (get_elem? it.start 0 ≡ some h)
          at_front [] q = (f, rw q refl)
          at_front (x ∷ xs) q = (x, rw q refl)

      by_end :
          ((g.tag == 0) ≡ true) ⊎ ((g.tag == 0) ≡ false)
          → (g.tag ≢ 0
              → Implements
                  (encode_loop env m encode fuel (advanced f g it))
                  (fields_bytes env m entry (g ∷ rest) (advanced f g it)))
          → Implements (encode_loop env m encode (suc fuel) it) (
              then_bytes (entry f it.p_data) (
                if g.tag == 0
                then some []
                else fields_bytes env m entry (g ∷ rest) (advanced f g it)))
      by_end (inl z) rest_of =
          let (h, e0) = first in
          rw (loop_step fuel it f _ here (next_end it f g h here there e0 t ((==_iff _ _).0 z)), z)
            (seq-Implements (entry f it.p_data) (some []) (implements f it.p_data)
              nothing-Implements)
      by_end (inr z) rest_of =
          let t' : g.tag ≢ 0 = ground (arith, z) in
          rw (loop_step fuel it f _ here (next_inside it f g here there t t'), z)
            (seq-Implements (entry f it.p_data)
              (fields_bytes env m entry (g ∷ rest) (advanced f g it)) (implements f it.p_data)
              (rest_of t'))

  table-Implements :
      (fields : List PbField) (src : ℕ)
      → Implements
          (while_next env m
            (pb_field_iter_begin fields src uninitialised)
            (encode_loop env m encode (length fields)))
          (table_bytes env m entry fields src)
  unfolding pb_field_iter_begin
  table-Implements [] src = none-Implements
  table-Implements (f ∷ rest) src = by_tag (Bool-cases (f.tag == 0))
    where
      by_tag :
          ((f.tag == 0) ≡ true) ⊎ ((f.tag == 0) ≡ false)
          → Implements
              (while_next env m
                (pb_field_iter_begin (f ∷ rest) src uninitialised)
                (encode_loop env m encode (length (f ∷ rest))))
              (table_bytes env m entry (f ∷ rest) src)
      by_tag (inl z) = rw z nothing-Implements
      by_tag (inr z) = rw z (
          loop-Implements rest [] f (length (f ∷ rest)) (begun (f ∷ rest) src f) refl refl
            (ground (arith, z)) (omega arith))

module _ (env : Environment) (m : Memory) (user : UserWire) (bytes : IsBytes m)
    (faithful : IsFaithful env user) where
  pub message-Implements :
      (depth links : ℕ) (fields : List PbField) (src : ℕ)
      → Implements
          (pb_encode env m depth links fields src)
          (message_bytes env m user depth links fields src)
  unfolding pb_encode message_bytes
  message-Implements zero links fields src = none-Implements
  message-Implements (suc depth) links fields src =
      table-Implements env m (encode_current env m (pb_encode env m depth links) (suc depth) links)
        (entry_bytes env m user (message_bytes env m user depth links) (suc depth) links)
        (current-Implements env m bytes (pb_encode env m depth links)
          (message_bytes env m user depth links) (message-Implements depth links) user faithful
          (suc depth) links)
        fields src
