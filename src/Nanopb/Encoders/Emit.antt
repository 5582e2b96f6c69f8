-- ===== src/Nanopb/Encoders/Emit.antt =====
-- What the field encoders emit, in terms of the value in memory.
use app_card.Base.{ℕ, ◌*◌, ◌%◌, ◌^◌, ◌<◌, ◌≡◌, ◌⊎◌, inl, inr, some, arith}
use app_card.Nanopb.Pb.{PbField}
use app_card.Nanopb.Memory.{Memory, load, sign_extend}
use app_card.Nanopb.Memory.Laws.{load-lt}
use app_card.Nanopb.OStream.Contract.{Emits}
use app_card.Nanopb.OStream.Varint.{varint, zigzag, pb_encode_varint-Emits, pb_encode_svarint-Emits}
use app_card.Nanopb.Encoders.{int_size, pb_enc_varint, pb_enc_uvarint, pb_enc_svarint}

-- A memory of bytes.
abbrev pub IsBytes : Memory → Type 0
IsBytes m = (a : ℕ) → m a < 256

-- The sizes that an integer field can have.
abbrev pub IsIntSize : ℕ → Type 0
IsIntSize n = (n ≡ 1) ⊎ ((n ≡ 2) ⊎ ((n ≡ 4) ⊎ (n ≡ 8)))

pub int_size-eq : (n : ℕ) → IsIntSize n → int_size n ≡ some n
int_size-eq n h = ground arith

-- A property of the four sizes holds of an integer size.
pub by_size : (P : ℕ → Type 0) → P 1 → P 2 → P 4 → P 8 → (n : ℕ) → IsIntSize n → P n
by_size P p1 p2 p4 p8 n (inl e) = rw e p1
by_size P p1 p2 p4 p8 n (inr (inl e)) = rw e p2
by_size P p1 p2 p4 p8 n (inr (inr (inl e))) = rw e p4
by_size P p1 p2 p4 p8 n (inr (inr (inr e))) = rw e p8

-- A signed number is widened to a 64-bit pattern, and its low bytes are the number.
pub sign_extend_lem :
    (n : ℕ)
    → IsIntSize n
    → (v : ℕ) → v < 256 ^ n
    → (sign_extend n v < 2 ^ 64) × (sign_extend n v % 2 ^ (8 * n) ≡ v)
unfolding sign_extend
sign_extend_lem =
    by_size
      (λ n.
        (v : ℕ) → v < 256 ^ n → (sign_extend n v < 2 ^ 64) × (sign_extend n v % 2 ^ (8 * n) ≡ v))
      (λ v h. ground arith) (λ v h. ground arith) (λ v h. ground arith) (λ v h. ground arith)

pub lt-two_pow_64 : (n : ℕ) → IsIntSize n → (v : ℕ) → v < 256 ^ n → v < 2 ^ 64
lt-two_pow_64 =
    by_size (λ n. (v : ℕ) → v < 256 ^ n → v < 2 ^ 64) (λ v h. omega arith) (λ v h. omega arith)
      (λ v h. omega arith) (λ v h. omega arith)

module _ (field : PbField) (m : Memory) (src : ℕ) (size : IsIntSize field.data_size)
    (bytes : IsBytes m) where
  value_lt : load field.data_size m src < 256 ^ field.data_size
  value_lt = load-lt field.data_size m src bytes

  pub pb_enc_uvarint-Emits :
      Emits (pb_enc_uvarint field m src) (varint (load field.data_size m src))
  unfolding pb_enc_uvarint
  pb_enc_uvarint-Emits = rw (int_size-eq field.data_size size) (
      pb_encode_varint-Emits (load field.data_size m src)
        (lt-two_pow_64 field.data_size size _ value_lt))

  pub pb_enc_varint-Emits :
      Emits
        (pb_enc_varint field m src)
        (varint (sign_extend field.data_size (load field.data_size m src)))
  unfolding pb_enc_varint
  pb_enc_varint-Emits =
      rw (int_size-eq field.data_size size)
        (pb_encode_varint-Emits _ ((sign_extend_lem field.data_size size _ value_lt).0))

  pub pb_enc_svarint-Emits :
      Emits
        (pb_enc_svarint field m src)
        (varint (zigzag (sign_extend field.data_size (load field.data_size m src))))
  unfolding pb_enc_svarint
  pb_enc_svarint-Emits =
      rw (int_size-eq field.data_size size)
        (pb_encode_svarint-Emits _ ((sign_extend_lem field.data_size size _ value_lt).0))
