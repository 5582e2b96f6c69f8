-- ===== src/Nanopb/Decoders/Within.antt =====
-- Field decoders write to the field that they are given, and nowhere else, on any bytes at all.
use app_card.Base.{
  ℕ, ◌+◌, ◌%◌, ◌^◌, ◌≤◌, ◌<◌, ◌≡◌, false, not, List, length, take, length-take, drop,
  take-append-drop, sym, ◌++◌, arith, Run, ok, failed, fault, stuck, ◌>>◌, ltb, ◌==◌,
}
use app_card.Nanopb.Pb.{
  end_of_stream, bytes_overflow, string_overflow, set_error, pb_size_max, PbField, ErrMsg, atype,
  atype_pointer,
}
use app_card.Nanopb.Memory.{Memory, le_bytes, store}
use app_card.Nanopb.Memory.Laws.{length-le_bytes}
use app_card.Nanopb.IStream.{IStream, read_checked, pb_read}
use app_card.Nanopb.IStream.Safety.{Follows, IsReadable, Settled-trans, Follows-IsReadable}
use app_card.Nanopb.IStream.Contract.{after, pb_read-Reads}
use native.Mathlib.Decide.{dec_lt}
use app_card.Nanopb.Encoders.{bytes_allocsize}
use app_card.Nanopb.IStream.Settles.{pb_read-Settles, pb_decode_varint32-Settles}
use app_card.Nanopb.Decoders.{
  Input, FieldDecoder, read_to, put, with_space, terminated, pb_dec_fixed_length_bytes,
  pb_dec_bytes, pb_dec_string,
}
use app_card.Nanopb.Decoders.Confined.{
  Within, same, write_byte, store_bytes-Within, clear-Within, Confined, at, Confined-lift,
  Confined-if, Confined-error,
}

-- `pb_read` gives as many bytes as it was asked for.
pb_read-take :
    (bs rest : List ℕ) (s : IStream) (n : ℕ)
    → IsReadable s
    → s.state ≡ bs ++ rest
    → length bs ≡ n
    → n ≤ s.bytes_left
    → pb_read n s ≡ ok bs (after bs rest s)
pb_read-take bs rest s n h e size fits =
    rw (← size) (pb_read-Reads bs s rest h.callback e (omega arith))

pb_read-short :
    (s : IStream) (n : ℕ)
    → s.bytes_left < n
    → pb_read n s ≡ failed tt (record s { errmsg = set_error end_of_stream s.errmsg })
unfolding pb_read read_checked
pb_read-short s n short = ground arith

pb_read-length :
    (count : ℕ) (s : IStream) (bs : List ℕ) (t : IStream)
    → IsReadable s
    → pb_read count s ≡ ok bs t
    → length bs ≡ count
pb_read-length count s bs t h e = elim (dec_lt s.bytes_left count) [
  | yes short ↦ absurd (ground (arith, pb_read-short s count short, e))
  | no enough ↦
      let size = length-take count s.state (omega (arith, h.holds)) in
      let reads =
        pb_read-take (take count s.state) (drop count s.state) s count h
          (sym (take-append-drop count s.state)) size (omega arith) in
      ground (arith, reads, e, size)
]

read_to-Confined :
    (size a dest n : ℕ) (s : Input) (t : IStream) (m : Memory)
    → IsReadable s.stream
    → Follows s.stream t
    → Within dest n s.memory m
    → dest ≤ a
    → a + size ≤ dest + n
    → Confined dest n s (read_to size a (at t m))
read_to-Confined size a dest n s t m h f w lo hi =
    let ht = Follows-IsReadable f h in
    Confined-lift (List ℕ) dest n s m (pb_read size t) _
      (Settled-trans (pb_read size t) f (pb_read-Settles size t ht)) w
      λ bs u fu e. (
        fu,
        store_bytes-Within dest n s.memory m bs a lo
            (omega (arith, pb_read-length size t bs u ht e)) w,
      )

-- On any bytes `pb_dec_fixed_length_bytes` of a buffer stream whose buffer holds what `bytes_left`
-- promises returns without an access outside the buffer, and with success or failure it has taken
-- bytes off the front and written to no byte but the `data_size` bytes of the field.
pb_dec_fixed_length_bytes-Confined :
    (field : PbField) (dest : ℕ) (s : Input)
    → IsReadable s.stream
    → Confined dest field.data_size s (pb_dec_fixed_length_bytes field dest s)
unfolding pb_dec_fixed_length_bytes
pb_dec_fixed_length_bytes-Confined field dest s h =
    let n = field.data_size in
    Confined-lift ℕ dest n s s.memory _ _ (pb_decode_varint32-Settles s.stream h) same λ size t f e.
      Confined-if dest n s (at t s.memory) (ltb pb_size_max size) _ _
        (λ _. Confined-error dest n s t _ f)
        λ _.
          Confined-if dest n s (at t s.memory) (size == 0) _ _
            (λ _.
              (f, clear-Within dest n s.memory s.memory n dest (omega arith) (omega arith) same))
            λ _.
              Confined-if dest n s (at t s.memory) (not (size == n)) _ _
                (λ _. Confined-error dest n s t _ f)
                λ _.
                  read_to-Confined n dest dest n s t s.memory h f same (omega arith) (omega arith)

prefix-Within : (dest n : ℕ) (m : Memory) (size : ℕ) → 4 ≤ n → Within dest n m (store 4 size m dest)
unfolding store
prefix-Within dest n m size h =
    store_bytes-Within dest n m m (le_bytes 4 size) dest (omega arith)
      (omega (arith, length-le_bytes 4 size)) same

terminated-Confined :
    (realloc : ℕ → ℕ → Memory → ℕ × Memory) (dest n : ℕ) (s : Input) (p : ℕ)
    (r : Run Input (Unit {0}) (Unit {0}))
    → dest ≤ p
    → p < dest + n
    → Confined dest n s r
    → Confined dest n s (terminated realloc p r)
terminated-Confined realloc dest n s p (ok a t) lo hi (f, w) = (f, write_byte t.memory p 0 lo hi w)
terminated-Confined realloc dest n s p (failed e t) lo hi (f, w) =
    (f, write_byte t.memory p 0 lo hi w)
terminated-Confined realloc dest n s p fault lo hi h = h
terminated-Confined realloc dest n s p stuck lo hi h = h

module _ (realloc : ℕ → ℕ → Memory → ℕ × Memory) (field : PbField) (dest : ℕ) (s : Input)
    (h : IsReadable s.stream) (not_pointer : (atype field.type == atype_pointer) ≡ false) where
  -- The space of a field that is no pointer.
  with_space-Confined :
      (alloc_size : ℕ) (msg : ErrMsg) (t : IStream) (k : ℕ → FieldDecoder)
      → Follows s.stream t
      → (alloc_size ≤ field.data_size → Confined dest field.data_size s (k dest (at t s.memory)))
      → Confined dest field.data_size s
          (with_space realloc field alloc_size msg dest k (at t s.memory))
  with_space-Confined alloc_size msg t k f hk =
      Confined-if dest field.data_size s (at t s.memory) (atype field.type == atype_pointer) _ _
        (λ e. absurd (ground (arith, e, not_pointer)))
        λ _.
          Confined-if dest field.data_size s (at t s.memory) (ltb field.data_size alloc_size) _ _
            (λ _. Confined-error dest field.data_size s t msg f) λ fits. hk (ground arith)

  -- On any bytes `pb_dec_bytes` of a field that is not allocated, on a buffer stream whose buffer holds
  -- what `bytes_left` promises, returns without an access outside the buffer, and with success or
  -- failure it has taken bytes off the front and written to no byte but the `data_size` bytes of
  -- the field.
  pub pb_dec_bytes-Confined : Confined dest field.data_size s (pb_dec_bytes realloc field dest s)
  unfolding pb_dec_bytes
  pb_dec_bytes-Confined =
      let n = field.data_size in
      Confined-lift ℕ dest n s s.memory _ _ (pb_decode_varint32-Settles s.stream h) same
        λ size t f e.
          Confined-if dest n s (at t s.memory) (ltb pb_size_max size) _ _
            (λ _. Confined-error dest n s t _ f)
            λ small.
              Confined-if dest n s (at t s.memory) (ltb (bytes_allocsize size) size) _ _
                (λ _. Confined-error dest n s t _ f)
                λ _.
                  with_space-Confined (bytes_allocsize size) bytes_overflow t
                    (λ bdest. put 4 size bdest >> read_to size (bdest + 4)) f
                    λ fits.
                      read_to-Confined size (dest + 4) dest n s t (store 4 size s.memory dest) h f
                        (prefix-Within dest n s.memory size (ground arith)) (omega arith)
                        (ground arith)

  -- On any bytes `pb_dec_string` of a field that is not allocated, on a buffer stream whose buffer holds
  -- what `bytes_left` promises, returns without an access outside the buffer, and with success or
  -- failure it has taken bytes off the front and written to no byte but the `data_size` bytes of
  -- the field, the terminator included.
  pub pb_dec_string-Confined : Confined dest field.data_size s (pb_dec_string realloc field dest s)
  unfolding pb_dec_string
  pb_dec_string-Confined =
      let n = field.data_size in
      Confined-lift ℕ dest n s s.memory _ _ (pb_decode_varint32-Settles s.stream h) same
        λ size t f e.
          Confined-if dest n s (at t s.memory) (ltb ((size + 1) % 2 ^ 32) size) _ _
            (λ _. Confined-error dest n s t _ f)
            λ no_wrap.
              with_space-Confined ((size + 1) % 2 ^ 32) string_overflow t
                (λ text u. terminated realloc (text + size) (read_to size text u)) f
                λ fits.
                  terminated-Confined realloc dest n s (dest + size) _ (omega arith) (ground arith)
                    (read_to-Confined size dest dest n s t s.memory h f same (omega arith)
                      (ground arith))
