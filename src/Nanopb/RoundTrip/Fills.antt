-- ===== src/Nanopb/RoundTrip/Fills.antt =====
-- The loop over the wire format of required numbers fills the message with them.
use app_card.Base.{
  ℕ, zero, suc, ◌+◌, ◌^◌, ◌<◌, ◌≡◌, ◌≢◌, refl, ◌∙◌, ap, false, true, List, [], ◌∷◌, ◌++◌,
  append_assoc, length, length-append, get_elem?, some, ◌==◌, Run, ok, All, arith,
}
use app_card.Nanopb.Pb.{PbField}
use app_card.Nanopb.Memory.{Memory, load}
use app_card.Nanopb.FieldIter.{advanced}
use app_card.Nanopb.FieldIter.Step.{get_elem?-append_length, get_elem?-append_next, advanced_pos}
use app_card.Nanopb.Environment.{Environment}
use app_card.Nanopb.Encoders.Emit.{IsBytes}
use app_card.Nanopb.Decoders.{Input, FieldDecoder}
use app_card.Nanopb.Runtime.{Runtime}
use app_card.Nanopb.DecodeField.{MessageDecoder}
use app_card.Nanopb.MessageDecoder.{Progress, goes_on, finish, decode_round, decode_loop}
use app_card.Nanopb.RoundTrip.Scalar.{IsNumber}
use app_card.Nanopb.RoundTrip.Round.{noted}
use app_card.Nanopb.RoundTrip.Layout.{span, Differ, field_wire, flat, field_wire-length}
use app_card.Nanopb.RoundTrip.Takes.{stored_at, decode_round-takes, find_next, advanced_number}
use app_card.Nanopb.RoundTrip.Finish.{HasSeen}
use app_card.Nanopb.RoundTrip.Loop.{Filled, HoldsJust, at_end_of, HasSeen-next, fills_more}

module _ (rt : Runtime) (env : Environment) (m : Memory) (is_bytes : IsBytes m)
    (message message_noinit : MessageDecoder) (depth links at : ℕ) (behind : List PbField)
    (first : PbField) (v : FieldDecoder) (total : ℕ) (few : total < 64)
    (ends : (b : ℕ) (front : List PbField) (f : PbField) (p : Progress) (s : Input)
      → HasSeen front f [] behind first b p
      → IsNumber f
      → f.tag ≢ 0
      → length front ≡ total
      → finish rt message message_noinit depth links at p s ≡ v s) where
  abbrev loop : ℕ → Progress → Input → Run Input (Unit {0}) (Unit {0})
  loop = decode_loop rt message message_noinit depth links at

  -- A round that goes on is followed by the others.
  pub loop-goes_on :
      (fuel : ℕ) (p q : Progress) (s t : Input)
      → (s.stream.bytes_left == 0) ≡ false
      → decode_round rt message message_noinit depth links at p s ≡ ok (goes_on q) t
      → loop (suc fuel) p s ≡ loop fuel q t
  unfolding decode_loop
  loop-goes_on fuel p q s t more round = rw (more, round) refl

  loop-ends :
      (fuel b : ℕ) (front : List PbField) (f : PbField) (p : Progress) (s : Input)
      → HasSeen front f [] behind first b p
      → IsNumber f
      → f.tag ≢ 0
      → length front ≡ total
      → s.stream.bytes_left ≡ 0
      → loop (suc fuel) p s ≡ v s
  unfolding decode_loop
  loop-ends fuel b front f p s h n t count done =
      let over : (s.stream.bytes_left == 0) ≡ true = ground (arith, done) in
      rw over (ends b front f p s h n t count)

  pub loop-fills :
      (back front : List PbField) (f : PbField) (numbers : All IsNumber back) (a b : ℕ)
      (p : Progress) (s : Input) (rest : List ℕ) (fuel : ℕ)
      → HasSeen front f back behind first b p
      → IsNumber f
      → All (λ (e : PbField). e.tag ≢ 0) (f ∷ back)
      → Differ f back
      → b + span back < 2 ^ 64
      → length front + length back ≡ total
      → HoldsJust (flat rt env m is_bytes back numbers a) rest s.stream
      → s.stream.bytes_left < fuel
      → Filled v m back a b rest s (loop fuel p s)
  loop-fills back front f numbers a b p s rest zero h n t d fits count holds enough =
      absurd (omega arith)
  loop-fills [] front f numbers a b p s rest (suc fuel) h n t d fits count holds enough = record {
    to = s;
    result = loop-ends fuel b front f p s h n t.0 (omega (arith, count)) holds.bytes_left;
    stream = at_end_of rest s.stream holds.state holds.bytes_left;
    agree = tt;
    untouched = λ x lt. refl;
  }
  loop-fills (g ∷ back) front f numbers a b p s rest (suc fuel) h n t d fits count holds enough =
      let iter = advanced f g p.iter in
      let (moved, table) = advanced_pos f g p.iter in
      let (place, index) = advanced_number f g p.iter n in
      let bs = field_wire rt env m is_bytes g numbers.0 a in
      let more = flat rt env m is_bytes back numbers.1 (a + g.data_offset + g.data_size) in
      let number = load g.data_size m (a + g.data_offset) in
      let long : length p.iter.start ≡ suc (suc (length front + length back + length behind)) =
        omega (
          arith,
          ap length h.table,
          length-append front (f ∷ g ∷ (back ++ behind)),
          length-append back behind,
        ) in
      let next : get_elem? p.iter.start (p.iter.pos + 1) ≡ some g =
        rw (h.table, h.pos) (get_elem?-append_next front f g (back ++ behind)) in
      let found =
        find_next f g p.iter (length front + length back + length behind) numbers.0 t.0 t.1.0 d.0
          long (rw (h.table, h.pos) (get_elem?-append_length front f (g ∷ (back ++ behind))))
          next in
      let here : get_elem? iter.start iter.pos ≡ some g = rw (table, moved) next in
      let size = length-append bs more in
      let some_byte = field_wire-length rt env m is_bytes g numbers.0 a in
      let left = holds.bytes_left in
      let state : s.stream.state ≡ bs ++ (more ++ rest) = holds.state ∙ append_assoc bs more rest in
      let round =
        decode_round-takes rt env m is_bytes message message_noinit depth links at g numbers.0 a p
          iter s (more ++ rest) t.1.0 here found
          (record { callback = holds.callback; state = state; left = omega (arith, left, size) }) in
      fills_more rt env m is_bytes message message_noinit depth links at behind first v g back a b
        bs (more ++ rest) rest s iter.p_data _ _ (omega (arith, place, h.data_end, fits))
        (loop-goes_on fuel p _ s _ (ground (arith, left, size, some_byte)) round)
        (loop-fills back (front ++ (f ∷ [])) g numbers.1 (a + g.data_offset + g.data_size)
          (b + g.data_offset + g.data_size) (noted g iter p)
          (stored_at g number bs (more ++ rest) s iter.p_data) rest fuel
          (HasSeen-next rt env m is_bytes message message_noinit depth links at behind first v front
            f g back b p h n numbers.0 fits (omega (arith, count, few)))
          numbers.0 t.1 d.1 (omega arith) (omega (arith, count, length-append front (f ∷ [])))
          (record {
            callback = holds.callback;
            state = refl;
            bytes_left = omega (arith, left, size);
          })
          (omega (arith, left, size, some_byte, enough)))
