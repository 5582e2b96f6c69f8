-- ===== src/Nanopb/Encoders.antt =====
-- nanopb's pb_encode.c: the field encoders, from a value in memory to the stream. `src` is an
-- address, 0 for NULL; how the memory changes while a message is encoded is not their concern.
pub mod Emit
use app_card.Base.{
  ℕ, zero, suc, ◌+◌, ◌-◌, ◌*◌, ◌%◌, ◌^◌, Bool, true, false, ◌&&◌, ◌||◌, Option, none, some, List,
  [], ◌==◌, ltb, if◌then◌else◌,
}
use app_card.Nanopb.Pb.{
  PbField, atype, atype_static, atype_pointer, invalid_data_size, bytes_size_exceeded,
}
use app_card.Nanopb.Memory.{Memory, load, load_bytes, sign_extend}
use app_card.Nanopb.OStream.{
  Encoder, return_error, pb_encode_varint, pb_encode_svarint, pb_encode_fixed32, pb_encode_fixed64,
  pb_encode_string,
}

-- The loop runs over the one byte of a `bool`.
unfoldable pub safe_read_bool : Memory → ℕ → Bool
safe_read_bool m p = if m p == 0 then false else true

unfoldable pub pb_enc_bool : PbField → Memory → ℕ → Encoder
unfolding safe_read_bool
pb_enc_bool field m src = pb_encode_varint (if safe_read_bool m src then 1 else 0)

-- The chains of tests on `data_size`: the size of an integer type, if it is one.
abbrev pub int_size : ℕ → Option ℕ
int_size size = if size == 1 || size == 2 || size == 4 || size == 8 then some size else none

abbrev pub with_size : Option ℕ → (ℕ → Encoder) → Encoder
with_size none k = return_error invalid_data_size
with_size (some n) k = k n

unfoldable pub pb_enc_varint : PbField → Memory → ℕ → Encoder
pb_enc_varint field m src =
    with_size (int_size field.data_size) λ n. pb_encode_varint (sign_extend n (load n m src))

unfoldable pub pb_enc_uvarint : PbField → Memory → ℕ → Encoder
pb_enc_uvarint field m src =
    with_size (int_size field.data_size) λ n. pb_encode_varint (load n m src)

unfoldable pub pb_enc_svarint : PbField → Memory → ℕ → Encoder
pb_enc_svarint field m src =
    with_size (int_size field.data_size) λ n. pb_encode_svarint (sign_extend n (load n m src))

unfoldable pub pb_enc_fixed64 : PbField → Memory → ℕ → Encoder
pb_enc_fixed64 field m src = pb_encode_fixed64 (load 8 m src)

unfoldable pub pb_enc_fixed32 : PbField → Memory → ℕ → Encoder
pb_enc_fixed32 field m src = pb_encode_fixed32 (load 4 m src)

-- `pb_bytes_array_t` has a size of 4 bytes and then the bytes; PB_BYTES_ARRAY_T_ALLOCSIZE.
abbrev pub bytes_allocsize : ℕ → ℕ
bytes_allocsize n = (n + 4) % 2 ^ 64

unfoldable pub pb_enc_bytes : PbField → Memory → ℕ → Encoder
pb_enc_bytes field m src =
    let size = load 4 m src in
    if src == 0
    then pb_encode_string [] 0
    else if ltb (bytes_allocsize size) size
        || atype field.type == atype_static && ltb field.data_size (bytes_allocsize size)
    then return_error bytes_size_exceeded
    else pb_encode_string (load_bytes size m (src + 4)) size

-- The loop of `pb_enc_string`, with so many bytes left up to `max_size`.
unfoldable pub string_size : ℕ → Memory → ℕ → ℕ
string_size zero m p = 0
string_size (suc left) m p = elim (m p == 0) [ true ↦ 0 | false ↦ suc (string_size left m (p + 1)) ]

unfoldable pub pb_enc_string : PbField → Memory → ℕ → Encoder
unfolding string_size
pb_enc_string field m src =
    let max_size = if atype field.type == atype_pointer then 2 ^ 64 - 1 else field.data_size in
    let size = if src == 0 then 0 else string_size max_size m src in
    pb_encode_string (load_bytes size m src) size

unfoldable pub pb_enc_fixed_length_bytes : PbField → Memory → ℕ → Encoder
pb_enc_fixed_length_bytes field m src =
    pb_encode_string (load_bytes field.data_size m src) field.data_size
