-- ===== src/Nanopb/RoundTrip/Bytes.antt =====
-- Bytes and strings in memory, from pb_encode.c's encoders to pb_decode.c's decoders.
use app_card.Base.{
  ℕ, ◌+◌, ◌^◌, ◌≤◌, ◌<◌, ◌≡◌, ◌≢◌, refl, ◌∙◌, false, List, ◌++◌, append_assoc, length,
  length-append, ok, arith, ◌==◌,
}
use app_card.Nanopb.Pb.{PbField, atype, atype_pointer}
use app_card.Nanopb.Memory.{Memory, load, load_bytes, store, store_bytes, set_byte}
use app_card.Nanopb.Memory.Laws.{length-load_bytes}
use app_card.Nanopb.OStream.{OStream, pb_encode_string}
use app_card.Nanopb.OStream.Contract.{Emits, stored}
use app_card.Nanopb.OStream.Varint.{varint, pb_encode_string-Emits}
use app_card.Nanopb.IStream.{IStream, pb_read, pb_decode_varint32}
use app_card.Nanopb.IStream.Contract.{after, pb_read-Reads}
use app_card.Nanopb.IStream.Varint32.{pb_decode_varint32-varint}
use app_card.Nanopb.Encoders.{string_size, pb_enc_bytes, pb_enc_string}
use app_card.Nanopb.Decoders.{Input, pb_dec_bytes, pb_dec_string}
use app_card.Nanopb.RoundTrip.{HasRoom, StandsAt}

-- What stands on the wire for `n` bytes of memory.
abbrev pub wire : ℕ → Memory → ℕ → List ℕ
wire n m a = varint n ++ load_bytes n m a

-- Reading the length, and then the bytes.
module _ (n : ℕ) (bs rest : List ℕ) (s : IStream) (size : length bs ≡ n) (small : n < 2 ^ 32)
    (a : StandsAt (varint n ++ bs) rest s) where
  left : length (varint n) + n ≤ s.bytes_left
  left = omega (arith, a.left, length-append (varint n) bs)

  pub reads_size : pb_decode_varint32 s ≡ ok n (after (varint n) (bs ++ rest) s)
  reads_size =
      pb_decode_varint32-varint n small s (bs ++ rest) a.callback
        (a.state ∙ append_assoc (varint n) bs rest) (omega (arith, left))

  pub reads_bytes :
      pb_read n (after (varint n) (bs ++ rest) s) ≡ ok bs (after (varint n ++ bs) rest s)
  reads_bytes = from n size left
    where
      from :
          (k : ℕ)
          → length bs ≡ k
          → length (varint n) + k ≤ s.bytes_left
          → pb_read k (after (varint n) (bs ++ rest) s) ≡ ok bs (after (varint n ++ bs) rest s)
      from k e l = rw (← e) (
          rw (pb_read-Reads bs (after (varint n) (bs ++ rest) s) rest a.callback refl (omega arith))
            (ground (arith, length-append (varint n) bs)))

wire-Emits :
    (n : ℕ) (bs : List ℕ)
    → length bs ≡ n
    → n < 2 ^ 32
    → Emits (pb_encode_string bs n) (varint n ++ bs)
wire-Emits n bs size h = rw (← size) (pb_encode_string-Emits bs (omega arith))

module _ (field : PbField) (m : Memory) (src dest : ℕ) (o : OStream) (s : Input)
    (rest : List ℕ) where
  -- A bytes field that is not allocated and has room for its bytes, less than 2 ^ 32: `pb_enc_bytes`
  -- stores their number as a varint and then them in a buffer with room for both, and
  -- `pb_dec_bytes` takes just both off a buffer that begins with them and stores the number and
  -- the bytes at `dest`, and nothing else.
  pub pb_dec_bytes-pb_enc_bytes :
      (realloc : ℕ → ℕ → Memory → ℕ × Memory)
      → src ≢ 0
      → load 4 m src < 2 ^ 32
      → load 4 m src + 4 ≤ field.data_size
      → (atype field.type == atype_pointer) ≡ false
      → HasRoom (wire (load 4 m src) m (src + 4)) o
      → StandsAt (wire (load 4 m src) m (src + 4)) rest s.stream
      → (pb_enc_bytes field m src o ≡ ok tt (stored (wire (load 4 m src) m (src + 4)) o))
        × (pb_dec_bytes realloc field dest s
            ≡ ok tt (record {
              stream = after (wire (load 4 m src) m (src + 4)) rest s.stream;
              memory =
                  store_bytes
                    (load_bytes (load 4 m src) m (src + 4))
                    (store 4 (load 4 m src) s.memory dest)
                    (dest + 4);
            }))
  unfolding pb_enc_bytes pb_dec_bytes
  pb_dec_bytes-pb_enc_bytes realloc not_null small fits static r a =
      let n = load 4 m src in
      let bs = load_bytes n m (src + 4) in
      let size = length-load_bytes n m (src + 4) in
      (
        encodes ∙ (wire-Emits n bs size small).writes o r.callback r.room r.size tt,
        rw (reads_size n bs rest s.stream size small a, static)
            (ground (arith, reads_bytes n bs rest s.stream size small a)),
      )
    where
      encodes :
          pb_enc_bytes field m src o
          ≡ pb_encode_string (load_bytes (load 4 m src) m (src + 4)) (load 4 m src) o
      encodes = ground arith

  -- A string field that is not allocated, whose string of `n` characters, less than 2 ^ 32 - 1,
  -- ends within the field: `pb_enc_string` stores
  -- their number as a varint and then them in a buffer with room for both, and `pb_dec_string`
  -- takes just both off a buffer that begins with them and stores the characters and a '\0' at
  -- `dest`, and nothing else.
  pub pb_dec_string-pb_enc_string :
      (realloc : ℕ → ℕ → Memory → ℕ × Memory) (n : ℕ)
      → src ≢ 0
      → n ≡ string_size field.data_size m src
      → n + 1 < 2 ^ 32
      → n < field.data_size
      → (atype field.type == atype_pointer) ≡ false
      → HasRoom (wire n m src) o
      → StandsAt (wire n m src) rest s.stream
      → (pb_enc_string field m src o ≡ ok tt (stored (wire n m src) o))
        × (pb_dec_string realloc field dest s
            ≡ ok tt (record {
              stream = after (wire n m src) rest s.stream;
              memory = set_byte (store_bytes (load_bytes n m src) s.memory dest) (dest + n) 0;
            }))
  unfolding pb_enc_string pb_dec_string
  pb_dec_string-pb_enc_string realloc n not_null ends small fits static r a =
      let bs = load_bytes n m src in
      let size = length-load_bytes n m src in
      (
        encodes ∙ (wire-Emits n bs size (omega arith)).writes o r.callback r.room r.size tt,
        rw (reads_size n bs rest s.stream size (omega arith) a, static)
            (ground (arith, reads_bytes n bs rest s.stream size (omega arith) a)),
      )
    where
      encodes : pb_enc_string field m src o ≡ pb_encode_string (load_bytes n m src) n o
      encodes = rw (static, ends) (ground arith)
