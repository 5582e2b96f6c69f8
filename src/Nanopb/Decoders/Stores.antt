-- ===== src/Nanopb/Decoders/Stores.antt =====
-- The field decoders store what the field encoders read from memory.
use app_card.Base.{
  ℕ, ◌*◌, ◌%◌, ◌^◌, ◌≤◌, ◌<◌, ◌≡◌, refl, ◌++◌, List, ok, arith, length, ==_iff, some,
}
use app_card.Base.Bits.{bit_and_1}
use app_card.Nanopb.Pb.{PbField}
use app_card.Nanopb.Memory.{store, sign_extend}
use app_card.Nanopb.OStream.Varint.{varint, zigzag}
use app_card.Nanopb.IStream.{buf_read_callback}
use app_card.Nanopb.IStream.Contract.{after, Reads}
use app_card.Nanopb.IStream.Varint.{pb_decode_varint-varint}
use app_card.Nanopb.Encoders.Emit.{IsIntSize, int_size-eq, by_size, sign_extend_lem, lt-two_pow_64}
use app_card.Nanopb.Decoders.{
  Input, FieldDecoder, unzigzag, pb_decode_svarint, narrowed, pb_dec_varint, pb_dec_uvarint,
  pb_dec_svarint, store_clamped, zero_extend,
}

-- From `bs` the decoder stores `v` as a number of `n` bytes at `dest`, and changes no other byte.
abbrev pub Stores : FieldDecoder → List ℕ → ℕ → ℕ → ℕ → Type 0
Stores d bs n v dest =
    (s : Input) (rest : List ℕ)
    → s.stream.callback ≡ buf_read_callback
    → s.stream.state ≡ bs ++ rest
    → length bs ≤ s.stream.bytes_left
    → d s ≡ ok tt (record { stream = after bs rest s.stream; memory = store n v s.memory dest })

unzigzag-zigzag : (v : ℕ) → v < 2 ^ 64 → unzigzag (zigzag v) ≡ v
unfolding zigzag
unzigzag-zigzag v h = ground (arith, bit_and_1 (zigzag v))

zigzag-lt : (v : ℕ) → v < 2 ^ 64 → zigzag v < 2 ^ 64
unfolding zigzag
zigzag-lt v h = ground arith

-- `pb_decode_svarint` reads back what `pb_encode_svarint` emits.
pub pb_decode_svarint-varint : (v : ℕ) → v < 2 ^ 64 → Reads pb_decode_svarint (varint (zigzag v)) v
unfolding pb_decode_svarint
pb_decode_svarint-varint v h s rest c e l =
    rw (pb_decode_varint-varint (zigzag v) (zigzag-lt v h) s rest c e l)
      (ground (arith, unzigzag-zigzag v h))

clamped_store :
    (widen : ℕ → ℕ → ℕ) (value dest n v : ℕ) (s : Input)
    → value % 2 ^ (8 * n) ≡ v
    → widen n v ≡ value
    → store_clamped widen value dest (some n) s
      ≡ ok tt (record s { memory = store n v s.memory dest })
clamped_store widen value dest n v s low wide = rw (low, (==_iff (widen n v) value).1 wide)

unsigned_low : (n : ℕ) → IsIntSize n → (v : ℕ) → v < 256 ^ n → v % 2 ^ (8 * n) ≡ v
unsigned_low =
    by_size (λ n. (v : ℕ) → v < 256 ^ n → v % 2 ^ (8 * n) ≡ v) (λ v h. omega arith)
      (λ v h. omega arith) (λ v h. omega arith) (λ v h. omega arith)

-- The cast to int32_t keeps a number that was widened from at most 4 bytes.
narrowed_lem :
    (n : ℕ) → IsIntSize n → (v : ℕ) → v < 256 ^ n → narrowed n (sign_extend n v) ≡ sign_extend n v
unfolding sign_extend
narrowed_lem =
    by_size (λ n. (v : ℕ) → v < 256 ^ n → narrowed n (sign_extend n v) ≡ sign_extend n v)
      (λ v h. ground arith) (λ v h. ground arith) (λ v h. ground arith) (λ v h. refl)

module _ (field : PbField) (dest v : ℕ) (size : IsIntSize field.data_size)
    (fits : v < 256 ^ field.data_size) where
  -- Every value of an unsigned integer field is stored from its varint.
  pub pb_dec_uvarint-Stores : Stores (pb_dec_uvarint field dest) (varint v) field.data_size v dest
  unfolding pb_dec_uvarint
  pb_dec_uvarint-Stores s rest c e l =
      rw
        (
          pb_decode_varint-varint v (lt-two_pow_64 field.data_size size v fits) s.stream rest c e l,
          int_size-eq field.data_size size,
        )
        (clamped_store zero_extend v dest field.data_size v _
          (unsigned_low field.data_size size v fits) refl)

  -- Every value of a signed integer or enum field is stored from the varint of its 64-bit pattern.
  pub pb_dec_varint-Stores :
      Stores
        (pb_dec_varint field dest)
        (varint (sign_extend field.data_size v))
        field.data_size
        v
        dest
  unfolding pb_dec_varint
  pb_dec_varint-Stores s rest c e l =
      let (wide, low) = sign_extend_lem field.data_size size v fits in
      rw
        (
          pb_decode_varint-varint (sign_extend field.data_size v) wide s.stream rest c e l,
          int_size-eq field.data_size size,
          narrowed_lem field.data_size size v fits,
        )
        (clamped_store sign_extend (sign_extend field.data_size v) dest field.data_size v _ low
          refl)

  -- Every value of a zigzag field is stored from the varint of its zigzag number.
  pub pb_dec_svarint-Stores :
      Stores
        (pb_dec_svarint field dest)
        (varint (zigzag (sign_extend field.data_size v)))
        field.data_size
        v
        dest
  unfolding pb_dec_svarint
  pb_dec_svarint-Stores s rest c e l =
      let (wide, low) = sign_extend_lem field.data_size size v fits in
      rw
        (
          pb_decode_svarint-varint (sign_extend field.data_size v) wide s.stream rest c e l,
          int_size-eq field.data_size size,
        )
        (clamped_store sign_extend (sign_extend field.data_size v) dest field.data_size v _ low
          refl)
