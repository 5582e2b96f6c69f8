-- ===== src/Nanopb/DecodePointer/Fields.antt =====
-- The decoding of an allocated field returns on any bytes, whatever the allocator does.
use app_card.Base.{
  ℕ, zero, suc, ◌+◌, ◌%◌, ◌^◌, ◌<◌, ◌≡◌, refl, Bool, true, false, not, ◌==◌, ◌&&◌, ◌||◌, leb, ltb,
  some, if◌then◌else◌, List, Run, ok, failed, fault, stuck, ◌>>◌, arith,
}
use app_card.Nanopb.Pb.{
  PbField, htype, ltype, htype_repeated, htype_oneof, ltype_bytes, ltype_string,
  ltype_last_packable, ltype_submessage, pb_size_max, too_many_array_entries,
}
use app_card.Nanopb.Memory.{load, store, clear}
use app_card.Nanopb.IStream.{IStream}
use app_card.Nanopb.IStream.Safety.{Follows-refl}
use app_card.Nanopb.IStream.Leaves.{Follows-Leaves, IsInput}
use app_card.Nanopb.Substream.Opens.{Closes}
use app_card.Nanopb.FieldIter.{FieldIter}
use app_card.Nanopb.Environment.{load_ptr}
use app_card.Nanopb.Decoders.{Input, FieldDecoder, write, allocate_field}
use app_card.Nanopb.Decoders.Halts.{
  Halts, Safe, Any, Advances, Halts-Advances, Advances-Safe, Halts-bind, Halts-if, Safe-then,
  Safe-if, Safe-write, Safe-error, on_memory-Safe,
}
use app_card.Nanopb.Runtime.{Runtime, Effect, change, on_memory}
use app_card.Nanopb.SetDefaults.Returns.{Returns, seq-Returns, if-Returns}
use app_card.Nanopb.DecodeField.{ValueDecoder, close_with, count_up, is_packed}
use app_card.Nanopb.DecodeField.Values.{allocate_field-Safe, close_with-Halts, substream-Safe}
use app_card.Nanopb.DecodeField.Fields.{IsValueDecoder}
use app_card.Nanopb.DecodePointer.{
  grown, otherwise, initialize_pointer_field, entry_at, packed_pointer_loop, packed_pointer_end,
  decode_packed_pointer, decode_entry, decode_single, decode_pointer_field,
}

told-Advances :
    (s : IStream) (t : Input) (r : Run Input (Unit {0}) (Unit {0}))
    → Advances s r
    → Advances s (otherwise (λ _. r) t)
told-Advances s t (ok a u) h = h
told-Advances s t (failed e u) h = h
told-Advances s t fault h = h
told-Advances s t stuck h = h

count_up-Safe : (p : ℕ) → Safe Any (count_up p)
count_up-Safe p = Safe-write (λ m. store 4 ((load 4 m p + 1) % 2 ^ 32) m p)

module _ (rt : Runtime) (defaults : List PbField → ℕ → Effect) (func : ValueDecoder) (f : PbField)
    (iter : FieldIter) (value : IsValueDecoder rt defaults func f) where
  initialize_pointer_field-Returns :
      (item : ℕ) → Returns (initialize_pointer_field rt defaults f item)
  unfolding initialize_pointer_field
  initialize_pointer_field-Returns item =
      if-Returns (ltype f.type == ltype_string || ltype f.type == ltype_bytes) _ _
        (λ _ m. (_, refl))
        λ _.
          if-Returns (ltype f.type == ltype_submessage) _ _
            (λ sub.
              seq-Returns (change (λ m. clear f.data_size m item)) _ (λ m. (_, refl))
                (value.inits sub item))
            λ _ m. (m, refl)

  init-Safe : (item : ℕ) → Safe Any (on_memory (initialize_pointer_field rt defaults f item))
  init-Safe item = on_memory-Safe _ (initialize_pointer_field-Returns item)

  module _ (advances : (a : ℕ) (s : Input) → IsInput s.stream → Advances s.stream (func f a s))
      (sized : 0 < f.data_size) where
    -- An entry that there is space for.
    abbrev entry : FieldDecoder
    entry t =
        (on_memory (initialize_pointer_field rt defaults f (entry_at rt f iter t.memory))
            >> func f (entry_at rt f iter t.memory)
            >> count_up iter.p_size)
          t

    entry-Advances : (t : Input) → IsInput t.stream → Advances t.stream (entry t)
    entry-Advances t input =
        let a = entry_at rt f iter t.memory in
        Advances-Safe _ _ input
          (Halts-Advances (on_memory (initialize_pointer_field rt defaults f a) t) _ input
            (init-Safe a t input) λ v u input'. advances a u input')
          λ _. count_up-Safe iter.p_size

    reserve-Safe :
        (full : Bool) (allocated : ℕ)
        → Safe Any (
            if not full
            then write (λ m. m)
            else if f.data_size == 0
            then (λ t. fault)
            else allocate_field rt.realloc iter.p_data f.data_size allocated)
    reserve-Safe full allocated =
        Safe-if Any (not full) _ _ (λ _. Safe-write (λ m. m))
          λ _.
            Safe-if Any (f.data_size == 0) _ _ (λ e. absurd (ground (arith, e)))
              λ _. allocate_field-Safe rt.realloc iter.p_data f.data_size allocated

    packed_pointer_loop-Safe :
        (fuel allocated : ℕ) (s : Input)
        → IsInput s.stream
        → s.stream.bytes_left < fuel
        → Halts Any s.stream (packed_pointer_loop rt defaults func f iter fuel allocated s)
    unfolding packed_pointer_loop
    packed_pointer_loop-Safe zero allocated s input enough = absurd (omega arith)
    packed_pointer_loop-Safe (suc fuel) allocated s input enough =
        let full = ltb allocated (load 4 s.memory iter.p_size + 1) in
        let allocated' =
          if full then grown allocated s.stream.bytes_left f.data_size else allocated in
        let reserve : FieldDecoder =
          if not full
          then write (λ m. m)
          else if f.data_size == 0
          then (λ t. fault)
          else allocate_field rt.realloc iter.p_data f.data_size allocated' in
        let taken : Advances s.stream (otherwise (reserve >> entry) s) =
          told-Advances s.stream s ((reserve >> entry) s) (
            Halts-Advances (reserve s) (λ _. entry) input (reserve-Safe full allocated' s input)
              λ v t input'. entry-Advances t input') in
        Halts-if Any s (s.stream.bytes_left == 0) _ _ (λ _. (Follows-refl s.stream, tt))
          λ _.
            Halts-if Any s (load 4 s.memory iter.p_size == pb_size_max) _ _
              (λ _. Follows-Leaves (Follows-refl s.stream))
              λ _.
                Halts-bind (λ v t. t.stream.bytes_left < s.stream.bytes_left) Any
                  (otherwise (reserve >> entry) s)
                  (λ _. packed_pointer_loop rt defaults func f iter fuel allocated') input taken
                  λ v t input' follows less.
                    packed_pointer_loop-Safe fuel allocated' t input' (omega arith)

  packed_pointer_end-Halts :
      {s sub t : IStream} (r : Run Input Bool (Unit {0}))
      → Closes s sub t
      → Halts Any sub r
      → Halts Any s (packed_pointer_end rt t r)
  packed_pointer_end-Halts (ok a u) c h = close_with-Halts (ok a u) c h
  packed_pointer_end-Halts {s} {sub} {t} (failed true u) c h =
      let (t', closed, leaves) = c.close_failed u.stream (some too_many_array_entries) h in
      unfold close_with in rw closed leaves
  packed_pointer_end-Halts (failed false u) c h = close_with-Halts (failed tt u) c h
  packed_pointer_end-Halts fault c h = h
  packed_pointer_end-Halts stuck c h = h

  decode_entry-Safe : Safe Any (decode_entry rt defaults func f iter)
  unfolding decode_entry
  decode_entry-Safe s =
      let size = load 4 s.memory iter.p_size in
      Safe-if Any (size == pb_size_max) _ _ (λ _. Safe-error too_many_array_entries)
        (λ _.
          Safe-then Any _ _
            (allocate_field-Safe rt.realloc iter.p_data f.data_size ((size + 1) % 2 ^ 32))
            λ t.
              let item = entry_at rt f iter t.memory in
              Safe-then Any _ _
                (Safe-then Any (count_up iter.p_size) _ (count_up-Safe iter.p_size)
                  (init-Safe item))
                (value.safe item) t)
        s

  decode_single-Safe :
      (release : FieldIter → Effect)
      → ((ltype f.type == ltype_submessage) ≡ true → Returns (release iter))
      → Safe Any (decode_single rt defaults release func f iter)
  unfolding decode_single
  decode_single-Safe release h =
      Safe-then Any _ _
        (Safe-then Any _ _
          (λ s.
            Safe-if Any
              (ltype f.type == ltype_submessage && not (load_ptr s.memory iter.p_data == 0)) _ _
              (λ sub. on_memory-Safe _ (h (ground (arith, sub)))) (λ _. Safe-write (λ m. m)) s)
          (Safe-if Any (htype f.type == htype_oneof) _ _
            (λ _. Safe-write (λ m. store 4 f.tag m iter.p_size)) λ _. Safe-write (λ m. m)))
        (Safe-if Any (ltype f.type == ltype_string || ltype f.type == ltype_bytes) _ _
          (λ _. value.safe iter.p_data)
          λ _.
            Safe-then Any _ _
              (Safe-then Any _ _ (allocate_field-Safe rt.realloc iter.p_data f.data_size 1)
                λ s. init-Safe (load_ptr s.memory iter.p_data) s)
              λ s. value.safe (load_ptr s.memory iter.p_data) s)

  decode_packed_pointer-Safe :
      ((a : ℕ) (s : Input) → IsInput s.stream → Advances s.stream (func f a s))
      → 0 < f.data_size
      → Safe Any (decode_packed_pointer rt defaults func f iter)
  unfolding decode_packed_pointer
  decode_packed_pointer-Safe advances sized s =
      let allocated = load 4 s.memory iter.p_size in
      substream-Safe
        (λ sub t. packed_pointer_end rt t.stream (
          packed_pointer_loop rt defaults func f iter (sub.bytes_left + 1) allocated
            (record t { stream = sub })))
        (λ u sub t input c. packed_pointer_end-Halts _ c (
          packed_pointer_loop-Safe advances sized (sub.bytes_left + 1) allocated
            (record t { stream = sub }) input (omega arith)))
        s

  pub decode_pointer_field-Safe :
      (release : FieldIter → Effect) (wire_type : ℕ)
      → ((ltype f.type == ltype_submessage) ≡ true → Returns (release iter))
      → Safe Any (decode_pointer_field rt defaults release func wire_type f iter)
  unfolding decode_pointer_field
  decode_pointer_field-Safe release wire_type h =
      Safe-if Any (not (htype f.type == htype_repeated)) _ _ (λ _. decode_single-Safe release h)
        λ _.
          Safe-if Any (is_packed wire_type f) _ _
            (λ packed.
              let packable : leb (ltype f.type) ltype_last_packable ≡ true =
                ground (arith, packed) in
              decode_packed_pointer-Safe (value.advances packable) (value.sized packable))
            λ _. decode_entry-Safe
