-- ===== src/Nanopb/RoundTrip/Takes.antt =====
-- A round takes a field off the stream and stores its number, and the last finds the message whole.
use app_card.Base.{
  ℕ, suc, ◌+◌, ◌%◌, ◌^◌, ◌≡◌, ◌≢◌, refl, ◌∙◌, ap, false, true, not, ◌&&◌, List, ◌++◌, append_assoc,
  length, length-append, get_elem?, some, ◌==◌, ok, arith,
}
use app_card.Nanopb.Pb.{PbField, ltype, ltype_extension}
use app_card.Nanopb.Memory.{Memory, load, store}
use app_card.Nanopb.OStream.Varint.{varint, tag_number}
use app_card.Nanopb.IStream.{IStream, pb_decode_tag}
use app_card.Nanopb.IStream.Contract.{after, after-append}
use app_card.Nanopb.IStream.Varint32.{pb_decode_tag-varint}
use app_card.Nanopb.FieldIter.{FieldIter, advanced, wanted, pb_field_iter_find}
use app_card.Nanopb.FieldIter.Step.{advanced_pos, next_inside}
use app_card.Nanopb.FieldIter.Walk.{found_here, not_here}
use app_card.Nanopb.Environment.{Environment}
use app_card.Nanopb.Encoders.Emit.{IsBytes}
use app_card.Nanopb.Decoders.{Input}
use app_card.Nanopb.Runtime.{Runtime}
use app_card.Nanopb.DecodeField.{MessageDecoder}
use app_card.Nanopb.MessageDecoder.{Progress, goes_on, decode_round}
use app_card.Nanopb.RoundTrip.{StandsAt}
use app_card.Nanopb.RoundTrip.Scalar.{
  coded, IsNumber, IsNumberType, signed_type, unsigned_type, zigzag_type, fixed32_type,
  fixed64_type,
}
use app_card.Nanopb.RoundTrip.Round.{noted, round_decoded}
use app_card.Nanopb.RoundTrip.Layout.{field_wire}

-- What is left of the input when the field was stored.
abbrev pub stored_at : PbField → ℕ → List ℕ → List ℕ → Input → ℕ → Input
stored_at f v bs rest s p = record {
  stream = after bs rest s.stream;
  memory = store f.data_size v s.memory p;
}

module _ (rt : Runtime) (env : Environment) (m : Memory) (is_bytes : IsBytes m)
    (message message_noinit : MessageDecoder) (depth links at : ℕ) where
  pub decode_round-takes :
      (f : PbField) (n : IsNumber f) (a : ℕ) (p : Progress) (iter : FieldIter) (s : Input)
      (rest : List ℕ)
      → f.tag ≢ 0
      → get_elem? iter.start iter.pos ≡ some f
      → pb_field_iter_find f.tag p.iter ≡ ok tt iter
      → StandsAt (field_wire rt env m is_bytes f n a) rest s.stream
      → decode_round rt message message_noinit depth links at p s
        ≡ ok (goes_on (noted f iter p)) (
            stored_at f
              (load f.data_size m (a + f.data_offset))
              (field_wire rt env m is_bytes f n a)
              rest
              s
              iter.p_data)
  decode_round-takes f n a p iter s rest tagged current found stands =
      let c = coded rt env m f (a + f.data_offset) is_bytes n.number in
      let v = load f.data_size m (a + f.data_offset) in
      let tag = varint (tag_number c.wire_type f.tag) in
      let u = after tag (c.bytes ++ rest) s.stream in
      let read : pb_decode_tag s.stream ≡ ok (record { wire_type = c.wire_type; tag = f.tag }) u =
        pb_decode_tag-varint c.wire_type f.tag c.small (omega arith) n.tag_small s.stream
          (c.bytes ++ rest) stands.callback (stands.state ∙ append_assoc tag c.bytes rest)
          (omega (arith, stands.left, length-append tag c.bytes)) in
      let stores =
        c.decoded message message_noinit iter.p_data (record s { stream = u }) rest stands.callback
          refl (omega (arith, stands.left, length-append tag c.bytes)) in
      round_decoded rt message message_noinit depth links at f n iter (record s { stream = u }) _
        current stores p s.stream u c.wire_type read found refl
      ∙ ap
          (λ (t : IStream).
            ok (goes_on (noted f iter p))
              (record { stream = t; memory = store f.data_size v s.memory iter.p_data }))
          (after-append tag c.bytes rest s.stream)

wanted_number : (f : PbField) → IsNumber f → wanted f.tag f ≡ true
unfolding wanted
wanted_number f n = by_type n.number
  where
    by_type : IsNumberType f → (f.tag == f.tag && not (ltype f.type == ltype_extension)) ≡ true
    by_type (signed_type e size) = ground (arith, e)
    by_type (unsigned_type e size) = ground (arith, e)
    by_type (zigzag_type e size) = ground (arith, e)
    by_type (fixed32_type e size) = ground (arith, e)
    by_type (fixed64_type e size) = ground (arith, e)

unwanted_number : (f : PbField) (tag : ℕ) → f.tag ≢ tag → wanted tag f ≡ false
unfolding wanted
unwanted_number f tag h = ground arith

-- The search finds the field that the iterator stands at, and the next.
pub find_current :
    (f : PbField) (it : FieldIter) (size : ℕ)
    → IsNumber f
    → length it.start ≡ suc size
    → get_elem? it.start it.pos ≡ some f
    → pb_field_iter_find f.tag it ≡ ok tt it
unfolding pb_field_iter_find
find_current f it size n long current =
    rw long (found_here size it.pos f.tag it f current (wanted_number f n))

pub find_next :
    (f g : PbField) (it : FieldIter) (size : ℕ)
    → IsNumber g
    → f.tag ≢ 0
    → g.tag ≢ 0
    → f.tag ≢ g.tag
    → length it.start ≡ suc (suc size)
    → get_elem? it.start it.pos ≡ some f
    → get_elem? it.start (it.pos + 1) ≡ some g
    → pb_field_iter_find g.tag it ≡ ok tt (advanced f g it)
unfolding pb_field_iter_find
find_next f g it size n tag tag' differs long current next =
    let (moved, table) = advanced_pos f g it in
    let apart : ((advanced f g it).pos == it.pos) ≡ false = ground (arith, moved) in
    let here : get_elem? (advanced f g it).start (advanced f g it).pos ≡ some g =
      rw (table, moved) next in
    rw
      (
        long,
        not_here (suc size) it.pos g.tag it f current (unwanted_number f g.tag differs),
        next_inside it f g current next tag tag',
        apart,
      )
      (found_here size it.pos g.tag (advanced f g it) g here (wanted_number g n))

-- Where the next number is.
pub advanced_number :
    (f g : PbField) (it : FieldIter)
    → IsNumber f
    → ((advanced f g it).p_data ≡ (it.p_data + f.data_size + g.data_offset) % 2 ^ 64)
      × ((advanced f g it).required_field_index ≡ (it.required_field_index + 1) % 2 ^ 32)
unfolding advanced
advanced_number f g it n = rw (n.static, n.required) (refl, refl)
