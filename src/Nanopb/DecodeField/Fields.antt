-- ===== src/Nanopb/DecodeField/Fields.antt =====
-- The decoding of a static field returns on any bytes, packed arrays included.
use app_card.Base.{
  ℕ, zero, suc, ◌+◌, ◌%◌, ◌^◌, ◌<◌, ◌≡◌, refl, true, not, ◌==◌, ◌&&◌, leb, ltb, List, Run, ok,
  failed, fault, stuck, and_then, arith,
}
use app_card.Nanopb.Pb.{
  PbField, htype, ltype, htype_required, htype_optional, htype_repeated, ltype_last_packable,
  ltype_submessage, array_overflow,
}
use app_card.Nanopb.Memory.{load, store, clear}
use app_card.Nanopb.IStream.{IStream}
use app_card.Nanopb.IStream.Safety.{Follows-refl, with_message}
use app_card.Nanopb.IStream.Leaves.{Follows-Leaves, Leaves-trans, IsInput}
use app_card.Nanopb.Substream.Opens.{Closes}
use app_card.Nanopb.FieldIter.{FieldIter}
use app_card.Nanopb.Decoders.{Input, FieldDecoder, put}
use app_card.Nanopb.Decoders.Halts.{
  Halts, Safe, Any, Advances, Advances-Safe, Halts-bind, Halts-if, Halts-if_run, Safe-then, Safe-if,
  Safe-write, Safe-error, on_memory-Safe,
}
use app_card.Nanopb.Runtime.{Runtime, Effect, change}
use app_card.Nanopb.SetDefaults.Returns.{Returns, seq-Returns}
use app_card.Nanopb.DecodeField.{
  ValueDecoder, count_up, item_at, packed_loop, packed_end, decode_packed, decode_item, is_packed,
  decode_static_field,
}
use app_card.Nanopb.DecodeField.Values.{close_with-Halts, substream-Safe}

-- The decoder of the values of a field returns on any bytes, and so does the initialisation of a
-- submessage; an item of a packed array has a size and takes at least a byte.
pub record IsValueDecoder (rt : Runtime) (defaults : List PbField → ℕ → Effect)
    (func : ValueDecoder) (f : PbField) : Type 0 where
  pub safe : (a : ℕ) → Safe Any (func f a)
  pub advances :
      leb (ltype f.type) ltype_last_packable ≡ true
      → (a : ℕ) (s : Input) → IsInput s.stream
      → Advances s.stream (func f a s)
  pub sized : leb (ltype f.type) ltype_last_packable ≡ true → 0 < f.data_size
  pub inits :
      (ltype f.type == ltype_submessage) ≡ true → (p : ℕ) → Returns (defaults (rt.tables f.ptr) p)

module _ (func : ℕ → FieldDecoder) (f : PbField) (iter : FieldIter) where
  packed_loop-Safe :
      (fuel : ℕ) (s : Input)
      → ((a : ℕ) (t : Input) → IsInput t.stream → Advances t.stream (func a t))
      → IsInput s.stream
      → s.stream.bytes_left < fuel
      → Halts Any s.stream (packed_loop func f iter fuel s)
  unfolding packed_loop
  packed_loop-Safe zero s h input enough = absurd (omega arith)
  packed_loop-Safe (suc fuel) s h input enough =
      let size = load 4 s.memory iter.p_size in
      let a = item_at f iter.p_data size in
      Halts-if Any s (not (ltb 0 s.stream.bytes_left && ltb size f.array_size)) _ _
        (λ _. (Follows-refl s.stream, tt))
        λ _.
          Halts-bind (λ v t. t.stream.bytes_left < s.stream.bytes_left) Any
            (and_then (func a s) (λ _. count_up iter.p_size)) (λ _. packed_loop func f iter fuel)
            input
            (Advances-Safe (func a s) _ input (h a s input)
              λ _. Safe-write (λ m. store 4 ((load 4 m iter.p_size + 1) % 2 ^ 32) m iter.p_size))
            λ v t input' follows less. packed_loop-Safe fuel t h input' (omega arith)

  packed_end-Halts :
      {s sub t : IStream} (r : Run Input (Unit {0}) (Unit {0}))
      → Closes s sub t
      → Halts Any sub r
      → Halts Any s (packed_end t r)
  unfolding packed_end
  packed_end-Halts {s} {sub} {t} (ok a u) c h =
      Halts-if_run Any s (not (u.stream.bytes_left == 0)) _ _
        (λ _. Leaves-trans c.left (Follows-Leaves (with_message t)))
        λ _. close_with-Halts (ok a u) c h
  packed_end-Halts {s} {sub} {t} (failed e u) c h =
      Halts-if_run Any s (not (u.stream.bytes_left == 0)) _ _
        (λ _. Leaves-trans c.left (Follows-Leaves (with_message t)))
        λ _. close_with-Halts (failed e u) c h
  packed_end-Halts fault c h = h
  packed_end-Halts stuck c h = h

  decode_packed-Safe :
      ((a : ℕ) (t : Input) → IsInput t.stream → Advances t.stream (func a t))
      → Safe Any (decode_packed func f iter)
  unfolding decode_packed
  decode_packed-Safe h = substream-Safe _ λ s sub t input c.
      packed_end-Halts _ c
        (packed_loop-Safe (sub.bytes_left + 1) (record t { stream = sub }) h input (omega arith))

  decode_item-Safe : ((a : ℕ) → Safe Any (func a)) → Safe Any (decode_item func f iter)
  unfolding decode_item
  decode_item-Safe h s =
      let size = load 4 s.memory iter.p_size in
      Safe-then Any (count_up iter.p_size) _
        (Safe-write (λ m. store 4 ((load 4 m iter.p_size + 1) % 2 ^ 32) m iter.p_size))
        (Safe-if Any (leb f.array_size size) _ _ (λ _. Safe-error array_overflow)
          λ _. h (item_at f iter.p_data size))
        s

pub decode_static_field-Safe :
    (rt : Runtime) (defaults : List PbField → ℕ → Effect) (func : ValueDecoder) (wire_type : ℕ)
    (f : PbField) (iter : FieldIter)
    → IsValueDecoder rt defaults func f
    → Safe Any (decode_static_field rt defaults func wire_type f iter)
unfolding decode_static_field
decode_static_field-Safe rt defaults func wire_type f iter h =
    Safe-if Any (htype f.type == htype_required) _ _ (λ _. h.safe iter.p_data)
      λ _.
        Safe-if Any (htype f.type == htype_optional) _ _
          (λ _.
            Safe-then Any _ _
              (Safe-if Any (not (iter.p_size == iter.p_data)) _ _
                (λ _. Safe-write (λ m. store 1 1 m iter.p_size)) λ _. Safe-write (λ m. m))
              (h.safe iter.p_data))
          λ _.
            Safe-if Any (htype f.type == htype_repeated) _ _
              (λ _.
                Safe-if Any (is_packed wire_type f) _ _
                  (λ packed.
                    decode_packed-Safe (func f) f iter (h.advances (ground (arith, packed))))
                  λ _. decode_item-Safe (func f) f iter h.safe)
              λ _.
                Safe-then Any _ _
                  (Safe-then Any (put 4 f.tag iter.p_size) _
                    (Safe-write (λ m. store 4 f.tag m iter.p_size))
                    (Safe-if Any (ltype f.type == ltype_submessage) _ _
                      (λ sub. on_memory-Safe _ (
                        seq-Returns (change (λ m. clear f.data_size m iter.p_data)) _
                          (λ m. (_, refl)) (h.inits sub iter.p_data)))
                      λ _. Safe-write (λ m. m)))
                  (h.safe iter.p_data)
