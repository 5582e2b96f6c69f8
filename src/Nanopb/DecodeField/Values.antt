-- ===== src/Nanopb/DecodeField/Values.antt =====
-- The decoder of a value returns on any bytes, for every data type.
use app_card.Base.{
  ℕ, ◌+◌, ◌%◌, ◌^◌, ◌/◌, ◌-◌, ◌≡◌, refl, true, false, not, Bool-cases, ◌==◌, ◌||◌, ◌&&◌, leb, ltb,
  Run, ok, failed, fault, stuck, and_then, ◌>>=◌, inl, inr, arith,
}
use app_card.Nanopb.Pb.{
  ErrMsg, PbField, atype, htype, ltype, atype_pointer, htype_repeated, ltype_last_packable,
  ltype_bool, ltype_varint, ltype_uvarint, ltype_svarint, ltype_fixed32, ltype_fixed64, ltype_bytes,
  ltype_string, ltype_submessage, ltype_extension, ltype_fixed_length_bytes, pb_size_max,
  bytes_overflow, string_overflow,
}
use app_card.Nanopb.Memory.{Memory, load, store, store_bytes, clear}
use app_card.Nanopb.Encoders.{bytes_allocsize}
use app_card.Nanopb.IStream.{IStream, pb_read, pb_decode_varint32}
use app_card.Nanopb.IStream.Safety.{Follows-refl, with_message}
use app_card.Nanopb.IStream.Settles.{pb_read-Settles, pb_decode_varint32-Settles}
use app_card.Nanopb.IStream.Leaves.{Follows-Leaves, Leaves-trans, IsInput}
use app_card.Nanopb.Substream.{pb_make_string_substream}
use app_card.Nanopb.Substream.Opens.{Closes, Opens, pb_make_string_substream-Opens}
use app_card.Nanopb.Decoders.{
  Input, FieldDecoder, on_stream, lift, put, read_to, allocate_field, reallocated, with_space,
  terminated, pb_dec_fixed_length_bytes, pb_dec_bytes, pb_dec_string,
}
use app_card.Nanopb.Decoders.Halts.{
  Halts, Safe, Any, Safe-bind, Safe-then, Safe-if, Halts-if_run, Safe-write, Safe-error, lift-Safe,
}
use app_card.Nanopb.Runtime.{Runtime}
use app_card.Nanopb.DecodeField.{MessageDecoder, close_with, pb_dec_submessage, pb_decoders}
use app_card.Nanopb.DecodeField.Arrays.{DecodesItem}
use app_card.Nanopb.DecodeField.Scalars.{HasItems, pb_decoders-DecodesItem}

read_to-Safe : (size dest : ℕ) → Safe Any (read_to size dest)
read_to-Safe size dest =
    Safe-bind Any (lift (pb_read size)) _ (lift-Safe (pb_read size) (pb_read-Settles size))
      λ bytes. Safe-write (λ m. store_bytes bytes m dest)

size-Safe : Safe Any (lift pb_decode_varint32)
size-Safe = lift-Safe pb_decode_varint32 pb_decode_varint32-Settles

pub pb_dec_fixed_length_bytes-Safe :
    (field : PbField) (dest : ℕ) → Safe Any (pb_dec_fixed_length_bytes field dest)
unfolding pb_dec_fixed_length_bytes
pb_dec_fixed_length_bytes-Safe field dest =
    Safe-bind Any (lift pb_decode_varint32) _ size-Safe λ size.
      Safe-if Any (ltb pb_size_max size) _ _ (λ _. Safe-error _)
        λ _.
          Safe-if Any (size == 0) _ _ (λ _. Safe-write (λ m. clear field.data_size m dest))
            λ _.
              Safe-if Any (not (size == field.data_size)) _ _ (λ _. Safe-error _)
                λ _. read_to-Safe field.data_size dest

module _ (realloc : ℕ → ℕ → Memory → ℕ × Memory) where
  reallocated-Halts :
      (dest : ℕ) (given : ℕ × Memory) (s : Input)
      → Halts Any s.stream (reallocated realloc dest given s)
  reallocated-Halts dest (ptr, m) s =
      Halts-if_run Any s.stream (ptr == 0) _ _ (λ _. Follows-Leaves (with_message s.stream))
        λ _. (Follows-refl s.stream, tt)

  pub allocate_field-Safe :
      (dest data_size array_size : ℕ) → Safe Any (allocate_field realloc dest data_size array_size)
  unfolding allocate_field
  allocate_field-Safe dest data_size array_size s input =
      Halts-if_run Any s.stream (data_size == 0 || array_size == 0) _ _
        (λ _. Follows-Leaves (with_message s.stream))
        λ _.
          Halts-if_run Any s.stream
            ((leb (2 ^ 32) data_size || leb (2 ^ 32) array_size)
              && ltb ((2 ^ 64 - 1) / array_size) data_size)
            _ _ (λ _. Follows-Leaves (with_message s.stream)) λ _. reallocated-Halts dest _ s

  with_space-Safe :
      (field : PbField) (alloc_size : ℕ) (too_small : ErrMsg) (dest : ℕ) (k : ℕ → FieldDecoder)
      → ((p : ℕ) → Safe Any (k p))
      → Safe Any (with_space realloc field alloc_size too_small dest k)
  with_space-Safe field alloc_size too_small dest k h =
      Safe-if Any (atype field.type == atype_pointer) _ _
        (λ _.
          Safe-then Any (allocate_field realloc dest alloc_size 1) _
            (allocate_field-Safe dest alloc_size 1) λ s. h (load 8 s.memory dest) s)
        λ _.
          Safe-if Any (ltb field.data_size alloc_size) _ _ (λ _. Safe-error too_small) λ _. h dest

  pub pb_dec_bytes-Safe : (field : PbField) (dest : ℕ) → Safe Any (pb_dec_bytes realloc field dest)
  unfolding pb_dec_bytes
  pb_dec_bytes-Safe field dest = Safe-bind Any (lift pb_decode_varint32) _ size-Safe λ size.
      Safe-if Any (ltb pb_size_max size) _ _ (λ _. Safe-error _)
        λ _.
          Safe-if Any (ltb (bytes_allocsize size) size) _ _ (λ _. Safe-error _)
            λ _. with_space-Safe field (bytes_allocsize size) bytes_overflow dest _ λ p.
              Safe-then Any (put 4 size p) _ (Safe-write (λ m. store 4 size m p))
                (read_to-Safe size (p + 4))

  terminated-Halts :
      (p : ℕ) (s : IStream) (r : Run Input (Unit {0}) (Unit {0}))
      → Halts Any s r
      → Halts Any s (terminated realloc p r)
  terminated-Halts p s (ok a t) h = h
  terminated-Halts p s (failed e t) h = h
  terminated-Halts p s fault h = h
  terminated-Halts p s stuck h = h

  pub pb_dec_string-Safe :
      (field : PbField) (dest : ℕ) → Safe Any (pb_dec_string realloc field dest)
  unfolding pb_dec_string
  pb_dec_string-Safe field dest = Safe-bind Any (lift pb_decode_varint32) _ size-Safe λ size.
      Safe-if Any (ltb ((size + 1) % 2 ^ 32) size) _ _ (λ _. Safe-error _)
        λ _.
          with_space-Safe field ((size + 1) % 2 ^ 32) string_overflow dest _
            λ p s input. terminated-Halts (p + size) s.stream _ (read_to-Safe size p s input)

pub DecodesItem-Halts :
    (a n : ℕ) (s : Input) (r : Run Input (Unit {0}) (Unit {0}))
    → DecodesItem a n s r
    → Halts Any s.stream r
DecodesItem-Halts a n s (ok v t) h = (h.0, tt)
DecodesItem-Halts a n s (failed e t) h = Follows-Leaves h.0
DecodesItem-Halts a n s fault h = h
DecodesItem-Halts a n s stuck h = h

-- A substream is closed, whatever became of what it was opened for.
pub close_with-Halts :
    {s sub t : IStream} (r : Run Input (Unit {0}) (Unit {0}))
    → Closes s sub t
    → Halts Any sub r
    → Halts Any s (close_with t r)
unfolding close_with
close_with-Halts {s} {sub} {t} (ok a u) c h =
    let (t', closed, follows) = c.close u.stream h.0 in rw closed (follows, tt)
close_with-Halts {s} {sub} {t} (failed e u) c h =
    let (t', closed, leaves) = c.close_failed u.stream t.errmsg h in rw closed leaves
close_with-Halts fault c h = h
close_with-Halts stuck c h = h

-- What is done in a substream, where `k` is given the substream and stands behind its length.
pub substream-Safe :
    (k : IStream → FieldDecoder)
    → ((s : IStream) (sub : IStream) (t : Input)
        → IsInput sub
        → Closes s sub t.stream
        → Halts Any s (k sub t))
    → Safe Any (lift pb_make_string_substream >>= k)
unfolding Opens
substream-Safe k h s input =
    opened (pb_make_string_substream s.stream)
      (pb_make_string_substream-Opens s.stream input.readable)
  where
    opened :
        (r : Run IStream (Unit {0}) IStream)
        → Opens s.stream r
        → Halts Any s.stream (and_then (on_stream s.memory r) k)
    opened (ok sub t) c =
        h s.stream sub (record s { stream = t })
          (record { readable = c.readable; bytes = c.bytes input.bytes }) c
    opened (failed e t) f = Follows-Leaves f
    opened fault f = f
    opened stuck f = f

module _ (rt : Runtime) (message message_noinit : MessageDecoder) where
  pub pb_dec_submessage-Safe :
      (field : PbField) (dest : ℕ)
      → Safe Any (message (rt.tables field.ptr) dest)
      → Safe Any (message_noinit (rt.tables field.ptr) dest)
      → Safe Any (pb_dec_submessage rt message message_noinit field dest)
  unfolding pb_dec_submessage
  pb_dec_submessage-Safe field dest h h' = substream-Safe _ λ s sub t input c.
      Halts-if_run Any s (field.ptr == 0) _ _
        (λ _. Leaves-trans c.left (Follows-Leaves (with_message t.stream)))
        λ _. close_with-Halts _ c (
          Safe-if Any (htype field.type == htype_repeated) _ _ (λ _. h) (λ _. h')
            (record t { stream = sub }) input)

  -- PB_DECODERS at every data type but that of extensions.
  pub pb_decoders-Safe :
      (f : PbField) (dest : ℕ)
      → leb (ltype f.type) ltype_fixed_length_bytes ≡ true
      → (ltype f.type == ltype_extension) ≡ false
      → (leb (ltype f.type) ltype_last_packable ≡ true → HasItems f)
      → ((ltype f.type == ltype_submessage) ≡ true
          → Safe Any (message (rt.tables f.ptr) dest)
            × Safe Any (message_noinit (rt.tables f.ptr) dest))
      → Safe Any (pb_decoders rt message message_noinit (ltype f.type) f dest)
  unfolding pb_decoders
  pb_decoders-Safe f dest known plain items nested =
      elim (Bool-cases (leb (ltype f.type) ltype_last_packable)) [
        | inl packable ↦ λ s input. DecodesItem-Halts dest f.data_size s _ (
            pb_decoders-DecodesItem f dest s input.readable rt message message_noinit
              (items packable))
        | inr other ↦ unpackable other
      ]
    where
      unpackable :
          leb (ltype f.type) ltype_last_packable ≡ false
          → Safe Any (pb_decoders rt message message_noinit (ltype f.type) f dest)
      unpackable other =
          let differs : (n : ℕ) → leb n ltype_last_packable ≡ true → (ltype f.type == n) ≡ false =
            λ n h. ground (arith, other, h) in
          rw
            (
              differs ltype_bool refl,
              differs ltype_varint refl,
              differs ltype_uvarint refl,
              differs ltype_svarint refl,
              differs ltype_fixed32 refl,
              differs ltype_fixed64 refl,
            )
            (Safe-if Any (ltype f.type == ltype_bytes) _ _
              (λ _. pb_dec_bytes-Safe rt.realloc f dest)
              λ b.
                Safe-if Any (ltype f.type == ltype_string) _ _
                  (λ _. pb_dec_string-Safe rt.realloc f dest)
                  λ z.
                    Safe-if Any (ltype f.type == ltype_submessage) _ _
                      (λ e. pb_dec_submessage-Safe f dest (nested e).0 (nested e).1)
                      λ n.
                        Safe-if Any (ltype f.type == ltype_fixed_length_bytes) _ _
                          (λ _. pb_dec_fixed_length_bytes-Safe f dest)
                          λ l. absurd (ground (arith, other, known, plain, b, z, n, l)))
