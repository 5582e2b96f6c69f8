-- ===== src/Nanopb/MessageEncoder/Values.antt =====
-- The functions of PB_ENCODERS implement the wire format of values.
use app_card.Base.{
  ℕ, ◌+◌, ◌≡◌, refl, ◌⊎◌, inl, inr, ◌&&◌, ◌||◌, none, List, [], length, ltb, ◌==◌, if◌then◌else◌,
  arith,
}
use app_card.Nanopb.Pb.{
  PbField, atype, atype_static, ltype_bool, ltype_varint, ltype_uvarint, ltype_svarint,
  ltype_fixed32, ltype_fixed64, ltype_bytes, ltype_string, ltype_submessage,
  ltype_fixed_length_bytes,
}
use app_card.Nanopb.Memory.{Memory, load, load_bytes}
use app_card.Nanopb.Memory.Laws.{load-lt, length-load_bytes, length-le_bytes}
use app_card.Nanopb.OStream.{Encoder, pb_write}
use app_card.Nanopb.OStream.Contract.{Emits, Emits-Sends, pb_write-Emits}
use app_card.Nanopb.OStream.Varint.{pb_encode_varint-Emits}
use app_card.Nanopb.Encoders.{
  int_size, bytes_allocsize, pb_enc_bool, pb_enc_fixed32, pb_enc_fixed64, pb_enc_bytes,
  pb_enc_string, pb_enc_fixed_length_bytes,
}
use app_card.Nanopb.Encoders.Emit.{
  IsBytes, IsIntSize, int_size-eq, pb_enc_varint-Emits, pb_enc_uvarint-Emits, pb_enc_svarint-Emits,
}
use app_card.Nanopb.RoundTrip.Fixed.{encodes32, encodes64}
use app_card.Nanopb.Environment.{Environment}
use app_card.Nanopb.MessageEncoder.{pb_enc_submessage, pb_encoders}
use app_card.Nanopb.MessageEncoder.Wire.{Wire, int_bytes, of_bytes, prefixed, value_bytes}
use app_card.Nanopb.MessageEncoder.Implements.{
  Implements, some-Implements, none-Implements, if-Implements, string-Implements,
  submessage-Implements,
}

int_size_cases : (n : ℕ) → IsIntSize n ⊎ (int_size n ≡ none)
int_size_cases n = ground arith

by_int_size :
    (n : ℕ) (f : Encoder) (k : ℕ → List ℕ)
    → (IsIntSize n → Emits f (k n))
    → Implements f (int_bytes (int_size n) k)
by_int_size n f k h = elim (int_size_cases n) [
  | inl size ↦ rw (int_size-eq n size) (some-Implements (Emits-Sends (h size)))
  | inr e ↦ rw e none-Implements
]

write-Emits : (bs : List ℕ) (n : ℕ) → length bs ≡ n → Emits (pb_write bs n) bs
write-Emits bs n size = rw (← size) (pb_write-Emits bs)

module _ (m : Memory) (bytes : IsBytes m) (field : PbField) (src : ℕ) where
  bytes-Implements : Implements (pb_enc_bytes field m src) (
      if src == 0
      then prefixed []
      else if atype field.type == atype_static && ltb field.data_size (load 4 m src + 4)
      then none
      else prefixed (load_bytes (load 4 m src) m (src + 4)))
  unfolding pb_enc_bytes
  bytes-Implements =
      let size = load 4 m src in
      if-Implements (src == 0) (λ _. string-Implements [] 0 refl)
        λ _. rw guard (
          if-Implements (atype field.type == atype_static && ltb field.data_size (load 4 m src + 4))
            (λ _. none-Implements)
            (λ _.
              string-Implements (load_bytes size m (src + 4)) size
                (length-load_bytes size m (src + 4))))
    where
      guard :
          (ltb (bytes_allocsize (load 4 m src)) (load 4 m src)
            || atype field.type == atype_static
              && ltb field.data_size (bytes_allocsize (load 4 m src)))
          ≡ (atype field.type == atype_static && ltb field.data_size (load 4 m src + 4))
      guard = ground (arith, load-lt 4 m src bytes)

  module _ (env : Environment) (message : List PbField → ℕ → Encoder)
      (format : List PbField → ℕ → Wire)
      (implements : (fields : List PbField) (p : ℕ)
        → Implements (message fields p) (format fields p)) where
    submessage_lem :
        Implements
          (pb_enc_submessage env m message field src)
          (if field.ptr == 0 then none else of_bytes (format (env.tables field.ptr) src) prefixed)
    unfolding pb_enc_submessage
    submessage_lem =
        if-Implements (field.ptr == 0) (λ _. none-Implements)
          λ _.
            submessage-Implements (message (env.tables field.ptr) src)
              (format (env.tables field.ptr) src) (implements (env.tables field.ptr) src)

    pub value-Implements :
        (lt : ℕ)
        → Implements
            (pb_encoders env m message lt field src)
            (value_bytes env m format lt field src)
    unfolding pb_encoders value_bytes pb_enc_bool pb_enc_fixed32 pb_enc_fixed64 pb_enc_string
        pb_enc_fixed_length_bytes
    value-Implements lt =
        let n = field.data_size in
        if-Implements (lt == ltype_bool)
          (λ _. some-Implements (Emits-Sends (pb_encode_varint-Emits _ (ground arith))))
          λ _.
            if-Implements (lt == ltype_varint)
              (λ _. by_int_size n _ _ (λ size. pb_enc_varint-Emits field m src size bytes))
              λ _.
                if-Implements (lt == ltype_uvarint)
                  (λ _. by_int_size n _ _ (λ size. pb_enc_uvarint-Emits field m src size bytes))
                  λ _.
                    if-Implements (lt == ltype_svarint)
                      (λ _. by_int_size n _ _ (λ size. pb_enc_svarint-Emits field m src size bytes))
                      λ _.
                        if-Implements (lt == ltype_fixed32)
                          (λ _. some-Implements (
                            Emits-Sends (
                              rw (encodes32 (load 4 m src))
                                (write-Emits _ 4 (length-le_bytes 4 (load 4 m src))))))
                          λ _.
                            if-Implements (lt == ltype_fixed64)
                              (λ _. some-Implements (
                                Emits-Sends (
                                  rw (encodes64 (load 8 m src))
                                    (write-Emits _ 8 (length-le_bytes 8 (load 8 m src))))))
                              λ _.
                                if-Implements (lt == ltype_bytes) (λ _. bytes-Implements)
                                  λ _.
                                    if-Implements (lt == ltype_string)
                                      (λ _. string-Implements _ _ (length-load_bytes _ m src))
                                      λ _.
                                        if-Implements (lt == ltype_submessage) (λ _. submessage_lem)
                                          λ _.
                                            if-Implements (lt == ltype_fixed_length_bytes)
                                              (λ _.
                                                string-Implements _ n (length-load_bytes n m src))
                                              λ _. none-Implements
