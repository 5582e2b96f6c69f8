-- ===== src/Nanopb/Environment.antt =====
-- What the addresses in descriptors and messages stand for, besides bytes: the descriptor tables
-- that are generated for the messages, and the functions of the user. The layouts are those of
-- pb.h on a platform with pointers of 8 bytes.
use app_card.Base.{ℕ, ◌+◌, ◌%◌, ◌^◌, List}
use app_card.Nanopb.Pb.{PbField}
use app_card.Nanopb.Memory.{Memory, load}
use app_card.Nanopb.OStream.{Encoder}

-- `encode` is the function at an address of pb_callback_t, called with the field and `&arg`;
-- `encode_extension` is one of pb_extension_type_t, called with the extension.
pub record Environment : Type 0 where
  pub tables : ℕ → List PbField
  pub encode : ℕ → PbField → ℕ → Encoder
  pub encode_extension : ℕ → ℕ → Encoder

-- A pointer in memory.
abbrev pub load_ptr : Memory → ℕ → ℕ
load_ptr m a = load 8 m a

-- The members of pb_callback_t: `funcs`, and the address of `arg`.
abbrev pub callback_funcs : Memory → ℕ → ℕ
callback_funcs m callback = load_ptr m callback

abbrev pub callback_arg : ℕ → ℕ
callback_arg callback = (callback + 8) % 2 ^ 64

-- The members of pb_extension_t.
abbrev pub extension_type : Memory → ℕ → ℕ
extension_type m extension = load_ptr m extension

abbrev pub extension_dest_at : ℕ → ℕ
extension_dest_at extension = (extension + 8) % 2 ^ 64

abbrev pub extension_dest : Memory → ℕ → ℕ
extension_dest m extension = load_ptr m (extension_dest_at extension)

abbrev pub extension_next : Memory → ℕ → ℕ
extension_next m extension = load_ptr m ((extension + 16) % 2 ^ 64)

abbrev pub extension_found_at : ℕ → ℕ
extension_found_at extension = (extension + 24) % 2 ^ 64

-- The members of pb_extension_type_t.
abbrev pub type_decode : Memory → ℕ → ℕ
type_decode m type = load_ptr m type

abbrev pub type_encode : Memory → ℕ → ℕ
type_encode m type = load_ptr m ((type + 8) % 2 ^ 64)

abbrev pub type_arg : Memory → ℕ → ℕ
type_arg m type = load_ptr m ((type + 16) % 2 ^ 64)
