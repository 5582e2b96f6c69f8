-- ===== src/Tests/Message.antt =====
-- A message with a number, a submessage and a packed array, and what `pb_encode` makes of it.
use app_card.Base.{
  ℕ, ◌+◌, ◌-◌, ◌^◌, ◌≤◌, ◌<◌, ◌≡◌, refl, none, some, List, [], ◌∷◌, ◌++◌, ok, failed, arith, length,
  All, ◌==◌, if◌then◌else◌,
}
use app_card.Nanopb.Pb.{PbField}
use app_card.Nanopb.Memory.{Memory, store_bytes, set_byte, load}
use app_card.Nanopb.OStream.{OStream, buf_write_callback, pb_ostream_from_buffer, wire_type_of}
use app_card.Nanopb.Environment.{Environment}
use app_card.Nanopb.MessageEncoder.{
  pb_encode, pb_get_encoded_size, pb_encode_delimited, pb_encode_nullterminated,
}
use app_card.Nanopb.MessageEncoder.Wire.{UserWire, message_bytes, tag_bytes, prefixed}
use app_card.Nanopb.MessageEncoder.Fields.{IsFaithful}
use app_card.Nanopb.MessageEncoder.Outcomes.{
  IsFresh, pb_encode-message_bytes, pb_encode-IsFull, pb_get_encoded_size-pb_encode,
  pb_encode_delimited-message_bytes, pb_encode_nullterminated-message_bytes,
}
use app_card.Nanopb.RoundTrip.{HasRoom}
use app_card.Nanopb.Encoders.{safe_read_bool}
use app_card.Nanopb.Encoders.Emit.{IsBytes}
use app_card.Nanopb.FieldIter.{advanced}
use app_card.Nanopb.OStream.Contract.{IsFull, stored}
use app_card.Nanopb.OStream.Varint.{varint, varint_of}

abbrev sub_field : PbField
sub_field = record {
  tag = 1;
  type = 0x02;
  data_offset = 0;
  size_offset = 0;
  data_size = 4;
  array_size = 0;
  ptr = 0;
}

abbrev end_entry : PbField
end_entry = record {
  tag = 0;
  type = 0;
  data_offset = 0;
  size_offset = 0;
  data_size = 0;
  array_size = 0;
  ptr = 0;
}

abbrev pub sub_table : List PbField
sub_table = sub_field ∷ end_entry ∷ []

abbrev pub table : List PbField
table =
    sub_field
    ∷ record {
      tag = 2;
      type = 0x18;
      data_offset = 4;
      size_offset = 2 ^ 32 - 4;
      data_size = 4;
      array_size = 0;
      ptr = 8;
    }
    ∷ record {
      tag = 3;
      type = 0x22;
      data_offset = 4;
      size_offset = 2 ^ 32 - 4;
      data_size = 4;
      array_size = 2;
      ptr = 0;
    }
    ∷ end_entry
    ∷ []

abbrev pub no_user : UserWire
no_user = record { callback = λ function field arg. none; extension = λ function extension. none }

abbrev pub env : Environment
env = record {
  tables = λ a. if a == 8 then sub_table else [];
  encode = λ function field arg s. failed tt s;
  encode_extension = λ function extension s. failed tt s;
}

-- The number 150, a submessage with the number 7, and an array of 1 and 300.
abbrev pub structure : Memory
structure =
    store_bytes
      (150 ∷ 0 ∷ 0 ∷ 0 ∷ 1 ∷ 0 ∷ 0 ∷ 0 ∷ 7 ∷ 0 ∷ 0 ∷ 0 ∷ 2 ∷ 0 ∷ 0 ∷ 0 ∷ 1 ∷ 0 ∷ 0 ∷ 0 ∷ 44 ∷ 1 ∷ 0
        ∷ 0 ∷ [])
      (λ a. 0) 64

abbrev pub on_wire : List ℕ
on_wire = 8 ∷ 150 ∷ 1 ∷ 18 ∷ 2 ∷ 8 ∷ 7 ∷ 26 ∷ 3 ∷ 1 ∷ 172 ∷ 2 ∷ []

pub format : message_bytes env structure no_user 2 0 table 64 ≡ some on_wire
unfolding message_bytes tag_bytes wire_type_of safe_read_bool store_bytes advanced prefixed varint
    varint_of load
format = refl

store_bytes-IsBytes :
    (bs : List ℕ) (m : Memory) (a : ℕ)
    → All (λ b. b < 256) bs
    → IsBytes m
    → IsBytes (store_bytes bs m a)
unfolding store_bytes
store_bytes-IsBytes [] m a h k = k
store_bytes-IsBytes (b ∷ bs) m a h k =
    store_bytes-IsBytes bs (set_byte m a b) (a + 1) h.1 (λ x. ground (arith, h.0, k x))

pub structure-IsBytes : IsBytes structure
structure-IsBytes = store_bytes-IsBytes _ (λ a. 0) 64 contents (λ x. omega arith)
  where
    contents :
        All
          (λ b. b < 256)
          (150 ∷ 0 ∷ 0 ∷ 0 ∷ 1 ∷ 0 ∷ 0 ∷ 0 ∷ 7 ∷ 0 ∷ 0 ∷ 0 ∷ 2 ∷ 0 ∷ 0 ∷ 0 ∷ 1 ∷ 0 ∷ 0 ∷ 0 ∷ 44 ∷ 1
            ∷ 0 ∷ 0 ∷ [])
    contents = ground arith

env-IsFaithful : IsFaithful env no_user
env-IsFaithful = record {
  callback = λ function field arg bs e. absurd (ground (arith, e));
  extension = λ function extension bs e. absurd (ground (arith, e));
}

abbrev buffer : ℕ → OStream
buffer n = record {
  callback = buf_write_callback;
  state = [];
  max_size = n;
  bytes_written = 0;
  errmsg = none;
}

buffer-IsFresh : (n : ℕ) → n < 2 ^ 63 → IsFresh (buffer n)
buffer-IsFresh n h = record { errmsg = refl; size = h }

buffer-HasRoom : (bs : List ℕ) (n : ℕ) → length bs ≤ n → n < 2 ^ 63 → HasRoom bs (buffer n)
buffer-HasRoom bs n h l = record { callback = refl; room = omega arith; size = omega arith }

pb_encode-message_bytes_example :
    pb_encode env structure 2 0 table 64 (buffer 32) ≡ ok tt (stored on_wire (buffer 32))
pb_encode-message_bytes_example =
    pb_encode-message_bytes env structure no_user 2 0 table 64 on_wire structure-IsBytes
      env-IsFaithful format (buffer 32) (buffer-HasRoom on_wire 32 (omega arith) (omega arith))
      (buffer-IsFresh 32 (omega arith))

pb_encode-IsFull_example :
    IsFull on_wire (buffer 9) (pb_encode env structure 2 0 table 64 (buffer 9))
pb_encode-IsFull_example =
    pb_encode-IsFull env structure no_user 2 0 table 64 on_wire structure-IsBytes env-IsFaithful
      format (buffer 9) refl (omega arith) (omega arith) (omega arith)
      (buffer-IsFresh 9 (omega arith))

pb_get_encoded_size-pb_encode_example :
    ((t : OStream) × (pb_get_encoded_size env structure 2 0 table 64 ≡ ok 12 t))
    × (pb_encode env structure 2 0 table 64 (pb_ostream_from_buffer 12)
        ≡ ok tt (record {
          callback = buf_write_callback;
          state = on_wire;
          max_size = 12;
          bytes_written = 12;
          errmsg = none;
        }))
pb_get_encoded_size-pb_encode_example =
    pb_get_encoded_size-pb_encode env structure no_user 2 0 table 64 on_wire structure-IsBytes
      env-IsFaithful format (omega arith)

pb_encode_delimited-message_bytes_example :
    pb_encode_delimited env structure 2 0 table 64 (buffer 32)
    ≡ ok tt (stored (varint 12 ++ on_wire) (buffer 32))
pb_encode_delimited-message_bytes_example =
    pb_encode_delimited-message_bytes env structure no_user 2 0 table 64 on_wire structure-IsBytes
      env-IsFaithful format (buffer 32) (omega arith)
      (buffer-HasRoom (varint 12 ++ on_wire) 32 (unfold varint varint_of in omega arith)
        (omega arith))
      (buffer-IsFresh 32 (omega arith))

pb_encode_nullterminated-message_bytes_example :
    pb_encode_nullterminated env structure 2 0 table 64 (buffer 32)
    ≡ ok tt (stored (on_wire ++ (0 ∷ [])) (buffer 32))
pb_encode_nullterminated-message_bytes_example =
    pb_encode_nullterminated-message_bytes env structure no_user 2 0 table 64 on_wire
      structure-IsBytes env-IsFaithful format (buffer 32)
      (buffer-HasRoom (on_wire ++ (0 ∷ [])) 32 (omega arith) (omega arith))
      (buffer-IsFresh 32 (omega arith))
