-- ===== src/Nanopb/Pb.antt =====
-- nanopb's pb.h, as it is configured for this build (PB_FIELD_32BIT, PB_ENABLE_MALLOC, 64-bit
-- integers, error messages on): field types, field descriptors, wire types, error messages.
use app_card.Base.{ℕ, ◌+◌, ◌-◌, ◌%◌, ◌^◌, Option, none, some, bit_and, ltb, if◌then◌else◌}

-- The string literals that PB_RETURN_ERROR is given.
pub data ErrMsg : Type 0 where
  stream_full io_error end_of_stream varint_overflow invalid_wire_type : ErrMsg
  parent_stream_too_short invalid_field_type invalid_data_size integer_too_large : ErrMsg
  bytes_size_exceeded bytes_overflow size_too_large string_overflow : ErrMsg
  incorrect_fixed_length_bytes_size invalid_size realloc_failed missing_required_field : ErrMsg
  array_max_size_exceeded callback_error submsg_size_changed invalid_field_descriptor : ErrMsg
  array_overflow callback_failed too_many_array_entries invalid_union_tag iterator_error : ErrMsg
  wrong_size_for_fixed_count_field : ErrMsg

-- PB_SET_ERROR keeps the first message.
abbrev pub set_error : ErrMsg → Option ErrMsg → Option ErrMsg
set_error msg none = some msg
set_error msg (some first) = some first

-- Field data types.
abbrev pub ltype_bool : ℕ
ltype_bool = 0x00

abbrev pub ltype_varint : ℕ
ltype_varint = 0x01

abbrev pub ltype_uvarint : ℕ
ltype_uvarint = 0x02

abbrev pub ltype_svarint : ℕ
ltype_svarint = 0x03

abbrev pub ltype_fixed32 : ℕ
ltype_fixed32 = 0x04

abbrev pub ltype_fixed64 : ℕ
ltype_fixed64 = 0x05

abbrev pub ltype_last_packable : ℕ
ltype_last_packable = 0x05

abbrev pub ltype_bytes : ℕ
ltype_bytes = 0x06

abbrev pub ltype_string : ℕ
ltype_string = 0x07

abbrev pub ltype_submessage : ℕ
ltype_submessage = 0x08

abbrev pub ltype_extension : ℕ
ltype_extension = 0x09

abbrev pub ltype_fixed_length_bytes : ℕ
ltype_fixed_length_bytes = 0x0a

-- Field repetition rules.
abbrev pub htype_required : ℕ
htype_required = 0x00

abbrev pub htype_optional : ℕ
htype_optional = 0x10

abbrev pub htype_repeated : ℕ
htype_repeated = 0x20

abbrev pub htype_oneof : ℕ
htype_oneof = 0x30

-- Field allocation types.
abbrev pub atype_static : ℕ
atype_static = 0x00

abbrev pub atype_callback : ℕ
atype_callback = 0x40

abbrev pub atype_pointer : ℕ
atype_pointer = 0x80

-- The macros PB_ATYPE, PB_HTYPE and PB_LTYPE.
abbrev pub atype : ℕ → ℕ
atype x = bit_and x 0xc0

abbrev pub htype : ℕ → ℕ
htype x = bit_and x 0x30

abbrev pub ltype : ℕ → ℕ
ltype x = bit_and x 0x0f

-- PB_SIZE_MAX, with a 32-bit pb_size_t.
abbrev pub pb_size_max : ℕ
pb_size_max = 2 ^ 32 - 1

-- pb_field_t. The signed `size_offset` is its bit pattern, and `ptr` an address, 0 for NULL.
pub record PbField : Type 0 where
  pub tag : ℕ
  pub type : ℕ
  pub data_offset : ℕ
  pub size_offset : ℕ
  pub data_size : ℕ
  pub array_size : ℕ
  pub ptr : ℕ

-- pb_wire_type_t.
abbrev pub wt_varint : ℕ
wt_varint = 0

abbrev pub wt_64bit : ℕ
wt_64bit = 1

abbrev pub wt_string : ℕ
wt_string = 2

abbrev pub wt_32bit : ℕ
wt_32bit = 5

-- Pointer arithmetic with a signed 32-bit offset, on 64-bit addresses.
abbrev pub add_ssize : ℕ → ℕ → ℕ
add_ssize p offset =
    (p + (if ltb offset (2 ^ 31) then offset else offset + (2 ^ 64 - 2 ^ 32))) % 2 ^ 64
