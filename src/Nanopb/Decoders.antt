-- ===== src/Nanopb/Decoders.antt =====
-- nanopb's pb_decode.c: the field decoders, from the stream to a value in memory. `dest` is an
-- address; a user's callback that fails has stored nothing at the buffer that it was given.
pub mod Stores
pub mod Confined
pub mod Within
pub mod Halts
use app_card.Base.{
  ℕ, zero, suc, ◌+◌, ◌-◌, ◌*◌, ◌/◌, ◌%◌, ◌^◌, Bool, true, false, not, ◌&&◌, ◌||◌, Option, none,
  some, List, [], ◌∷◌, ◌==◌, ltb, leb, if◌then◌else◌, bit_and, bit_or, Run, ok, failed, fault,
  stuck, Cmd, and_then, ◌>>=◌, ◌>>◌, pure,
}
use app_card.Nanopb.Pb.{
  ErrMsg, PbField, atype, atype_pointer, set_error, invalid_data_size, integer_too_large,
  bytes_overflow, size_too_large, string_overflow, incorrect_fixed_length_bytes_size, invalid_size,
  realloc_failed, pb_size_max,
}
use app_card.Nanopb.Memory.{Memory, load, store, store_bytes, set_byte, clear, sign_extend}
use app_card.Nanopb.Encoders.{bytes_allocsize, int_size}
use app_card.Nanopb.IStream.{IStream, Decoder, pb_read, pb_decode_varint, pb_decode_varint32}

-- The values of the helpers that store through an untyped pointer.
abbrev pub unzigzag : ℕ → ℕ
unzigzag value = if bit_and value 1 == 0 then value / 2 else 2 ^ 64 - 1 - value / 2

-- The int64_t is its bit pattern, and `~x` is `2 ^ 64 - 1 - x`.
unfoldable pub pb_decode_svarint : Decoder ℕ
pb_decode_svarint = pb_decode_varint >>= λ value. pure (unzigzag value)

-- `bytes[0] << 0 | bytes[1] << 8 | …` in words of `w` bits, from the byte at `shift` on.
unfoldable pub or_bytes : ℕ → ℕ → ℕ → List ℕ → ℕ
or_bytes w acc shift [] = acc
or_bytes w acc shift (b ∷ bs) = or_bytes w (bit_or acc (b * 2 ^ shift % 2 ^ w)) (shift + 8) bs

unfoldable pub pb_decode_fixed32 : Decoder ℕ
unfolding or_bytes
pb_decode_fixed32 = pb_read 4 >>= λ bytes. pure (or_bytes 32 0 0 bytes)

unfoldable pub pb_decode_fixed64 : Decoder ℕ
unfolding or_bytes
pb_decode_fixed64 = pb_read 8 >>= λ bytes. pure (or_bytes 64 0 0 bytes)

-- A decoder's state: its stream and the memory.
pub record Input : Type 0 where
  pub stream : IStream
  pub memory : Memory

abbrev pub FieldDecoder : Type 0
FieldDecoder = Cmd Input (Unit {0}) (Unit {0})

abbrev pub on_stream : {A : Type 0} → Memory → Run IStream (Unit {0}) A → Run Input (Unit {0}) A
on_stream m (ok a t) = ok a (record { stream = t; memory = m })
on_stream m (failed e t) = failed e (record { stream = t; memory = m })
on_stream m fault = fault
on_stream m stuck = stuck

abbrev pub lift : {A : Type 0} → Decoder A → Cmd Input (Unit {0}) A
lift d s = on_stream s.memory (d s.stream)

abbrev pub write : (Memory → Memory) → FieldDecoder
write f s = ok tt (record s { memory = f s.memory })

abbrev pub return_error : ErrMsg → FieldDecoder
return_error msg s =
    let t = s.stream in
    failed tt (record s { stream = record t { errmsg = set_error msg t.errmsg } })

abbrev pub put : ℕ → ℕ → ℕ → FieldDecoder
put n v dest = write (λ m. store n v m dest)

unfoldable pub pb_dec_bool : PbField → ℕ → FieldDecoder
pb_dec_bool field dest =
    lift pb_decode_varint32 >>= λ value. put 1 (if value == 0 then 0 else 1) dest

abbrev null_field : PbField
null_field = record {
  tag = 0;
  type = 0;
  data_offset = 0;
  size_offset = 0;
  data_size = 0;
  array_size = 0;
  ptr = 0;
}

-- `pb_dec_bool` makes no use of its field, which is NULL here.
unfoldable pub pb_decode_bool : ℕ → FieldDecoder
unfolding pb_dec_bool
pb_decode_bool dest = pb_dec_bool null_field dest

-- The chains of tests on `data_size`: store in the size of the field, then compare.
abbrev pub store_clamped : (ℕ → ℕ → ℕ) → ℕ → ℕ → Option ℕ → FieldDecoder
store_clamped widen value dest none = return_error invalid_data_size
store_clamped widen value dest (some n) =
    put n (value % 2 ^ (8 * n)) dest
    >> (if widen n (value % 2 ^ (8 * n)) == value
        then write (λ m. m)
        else return_error integer_too_large)

abbrev pub zero_extend : ℕ → ℕ → ℕ
zero_extend n v = v

-- `(int32_t)value` but for the fields of 8 bytes.
abbrev pub narrowed : ℕ → ℕ → ℕ
narrowed size value = if size == 8 then value else sign_extend 4 (value % 2 ^ 32)

unfoldable pub pb_dec_varint : PbField → ℕ → FieldDecoder
pb_dec_varint field dest = lift pb_decode_varint >>= λ value.
    store_clamped sign_extend (narrowed field.data_size value) dest (int_size field.data_size)

unfoldable pub pb_dec_uvarint : PbField → ℕ → FieldDecoder
pb_dec_uvarint field dest = lift pb_decode_varint >>= λ value.
    store_clamped zero_extend value dest (int_size field.data_size)

unfoldable pub pb_dec_svarint : PbField → ℕ → FieldDecoder
pb_dec_svarint field dest = lift pb_decode_svarint >>= λ value.
    store_clamped sign_extend value dest (int_size field.data_size)

unfoldable pub pb_dec_fixed32 : PbField → ℕ → FieldDecoder
pb_dec_fixed32 field dest = lift pb_decode_fixed32 >>= λ value. put 4 value dest

unfoldable pub pb_dec_fixed64 : PbField → ℕ → FieldDecoder
pb_dec_fixed64 field dest = lift pb_decode_fixed64 >>= λ value. put 8 value dest

-- `pb_read(stream, dest, size)`
abbrev pub read_to : ℕ → ℕ → FieldDecoder
read_to size dest = lift (pb_read size) >>= λ bytes. write (λ m. store_bytes bytes m dest)

unfoldable pub pb_dec_fixed_length_bytes : PbField → ℕ → FieldDecoder
pb_dec_fixed_length_bytes field dest = lift pb_decode_varint32 >>= λ size.
    if ltb pb_size_max size
    then return_error bytes_overflow
    else if size == 0
    then write (λ m. clear field.data_size m dest)
    else if not (size == field.data_size)
    then return_error incorrect_fixed_length_bytes_size
    else read_to field.data_size dest

-- `pb_realloc`, which is `realloc`, is not the program's: the pointer that it returns, 0 for NULL,
-- and the memory with what was kept of the old block.
module _ (realloc : ℕ → ℕ → Memory → ℕ × Memory) where
  abbrev pub reallocated : ℕ → ℕ × Memory → FieldDecoder
  reallocated dest (ptr, m) s =
      if ptr == 0 then return_error realloc_failed s else put 8 ptr dest (record s { memory = m })

  -- The product is checked only where one factor has more than half of the bits.
  unfoldable pub allocate_field : ℕ → ℕ → ℕ → FieldDecoder
  allocate_field dest data_size array_size s =
      if data_size == 0 || array_size == 0
      then return_error invalid_size s
      else if (leb (2 ^ 32) data_size || leb (2 ^ 32) array_size)
          && ltb ((2 ^ 64 - 1) / array_size) data_size
      then return_error size_too_large s
      else let bytes = array_size * data_size % 2 ^ 64 in
        reallocated dest (realloc (load 8 s.memory dest) bytes s.memory) s

  -- Space for `size` bytes: allocated, with its address stored at `dest`, or the field itself.
  abbrev pub with_space : PbField → ℕ → ErrMsg → ℕ → (ℕ → FieldDecoder) → FieldDecoder
  with_space field alloc_size too_small dest k =
      if atype field.type == atype_pointer
      then allocate_field dest alloc_size 1 >> (λ s. k (load 8 s.memory dest) s)
      else if ltb field.data_size alloc_size
      then return_error too_small
      else k dest

  unfoldable pub pb_dec_bytes : PbField → ℕ → FieldDecoder
  unfolding allocate_field
  pb_dec_bytes field dest = lift pb_decode_varint32 >>= λ size.
      if ltb pb_size_max size
      then return_error bytes_overflow
      else if ltb (bytes_allocsize size) size
      then return_error size_too_large
      else with_space field (bytes_allocsize size) bytes_overflow dest
          λ bdest. put 4 size bdest >> read_to size (bdest + 4)

  -- The terminator is written whether or not the read succeeds.
  abbrev pub terminated : ℕ → Run Input (Unit {0}) (Unit {0}) → Run Input (Unit {0}) (Unit {0})
  terminated p (ok a s) = ok a (record s { memory = set_byte s.memory p 0 })
  terminated p (failed e s) = failed e (record s { memory = set_byte s.memory p 0 })
  terminated p fault = fault
  terminated p stuck = stuck

  -- `size + 1` is computed in 32 bits.
  unfoldable pub pb_dec_string : PbField → ℕ → FieldDecoder
  unfolding allocate_field
  pb_dec_string field dest = lift pb_decode_varint32 >>= λ size.
      let alloc_size = (size + 1) % 2 ^ 32 in
      if ltb alloc_size size
      then return_error size_too_large
      else with_space field alloc_size string_overflow dest
          λ text s. terminated (text + size) (read_to size text s)
