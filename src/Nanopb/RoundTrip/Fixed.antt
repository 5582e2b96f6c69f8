-- ===== src/Nanopb/RoundTrip/Fixed.antt =====
-- Numbers of a fixed width, from pb_encode.c's encoders to pb_decode.c's decoders.
use app_card.Base.{
  ℕ, zero, suc, ◌+◌, ◌*◌, ◌/◌, ◌%◌, ◌^◌, ◌≤◌, ◌<◌, ◌≡◌, refl, ap, ◌∙◌, List, length, ok, arith,
  bit_or,
}
use app_card.Base.Bits.{bit_and_0xff, bit_or_above}
use app_card.Nanopb.Pb.{PbField}
use app_card.Nanopb.Memory.{Memory, load, store, le_bytes}
use app_card.Nanopb.Memory.Laws.{load-lt, length-le_bytes}
use app_card.Nanopb.OStream.{OStream, pb_write, pb_encode_fixed32, pb_encode_fixed64}
use app_card.Nanopb.OStream.Contract.{stored, pb_write-Emits}
use app_card.Nanopb.IStream.{IStream, pb_read}
use app_card.Nanopb.IStream.Contract.{after, pb_read-Reads}
use app_card.Nanopb.Encoders.{pb_enc_fixed32, pb_enc_fixed64}
use app_card.Nanopb.Encoders.Emit.{IsBytes}
use app_card.Nanopb.Decoders.{
  Input, or_bytes, pb_decode_fixed32, pb_decode_fixed64, pb_dec_fixed32, pb_dec_fixed64,
}
use native.Mathlib.Numerals.{towards_suc}
use native.Mathlib.Nat.{
  div-add-mod, pow-suc, one-le-pow, mod-eq_of_lt, mul-lt-mul_of_pos_right, mul-le-mul_right,
}
use app_card.Nanopb.Decoders.Stores.{Stores}
use app_card.Nanopb.RoundTrip.{HasRoom, StandsAt}

pub encodes32 : (v : ℕ) → pb_encode_fixed32 v ≡ pb_write (le_bytes 4 v) 4
unfolding pb_encode_fixed32 le_bytes
encodes32 v = ground (
  arith,
  bit_and_0xff v,
  bit_and_0xff (v / 2 ^ 8),
  bit_and_0xff (v / 2 ^ 16),
  bit_and_0xff (v / 2 ^ 24),
)

pub encodes64 : (v : ℕ) → pb_encode_fixed64 v ≡ pb_write (le_bytes 8 v) 8
unfolding pb_encode_fixed64 le_bytes
encodes64 v = ground (
  arith,
  bit_and_0xff v,
  bit_and_0xff (v / 2 ^ 8),
  bit_and_0xff (v / 2 ^ 16),
  bit_and_0xff (v / 2 ^ 24),
  bit_and_0xff (v / 2 ^ 32),
  bit_and_0xff (v / 2 ^ 40),
  bit_and_0xff (v / 2 ^ 48),
  bit_and_0xff (v / 2 ^ 56),
)

shift_eight : (shift : ℕ) → 2 ^ (shift + 8) ≡ 256 * 2 ^ shift
shift_eight shift = simp towards_suc (omega arith)

-- What one byte adds.
or_byte :
    (w shift acc b : ℕ)
    → b < 256
    → acc < 2 ^ shift
    → 256 * 2 ^ shift ≤ 2 ^ w
    → bit_or acc (b * 2 ^ shift % 2 ^ w) ≡ acc + b * 2 ^ shift
or_byte w shift acc b hb low fits = rw no_wrap (bit_or_above shift acc b low)
  where
    no_wrap : b * 2 ^ shift % 2 ^ w ≡ b * 2 ^ shift
    no_wrap =
        mod-eq_of_lt (omega (arith, mul-lt-mul_of_pos_right {k = 2 ^ shift} hb (omega arith), fits))

-- The bytes of `v`, put together from bit `shift` on.
or_bytes-le_bytes :
    (n w shift acc v : ℕ)
    → v < 256 ^ n
    → 256 ^ n * 2 ^ shift ≤ 2 ^ w
    → acc < 2 ^ shift
    → or_bytes w acc shift (le_bytes n v) ≡ acc + v * 2 ^ shift
unfolding or_bytes le_bytes
or_bytes-le_bytes zero w shift acc v h fits low = ground arith
or_bytes-le_bytes (suc n) w shift acc v h fits low =
    let unit : ℕ = 2 ^ shift in
    let up : 256 ^ suc n * unit ≡ 256 ^ n * 2 ^ (shift + 8) =
      rw (shift_eight shift, pow-suc 256 n) (omega arith) in
    let one_fits : 256 * unit ≤ 2 ^ w = omega (
      arith,
      fits,
      mul-le-mul_right {m = 256} {n = 256 ^ suc n} unit
          (omega (arith, pow-suc 256 n, one-le-pow n 256 (omega arith))),
    ) in
    let low' : acc + v % 256 * unit < 2 ^ (shift + 8) =
      omega
        (arith, shift_eight shift, mul-le-mul_right {m = v % 256} {n = 255} unit (omega arith)) in
    ap (λ (x : ℕ). or_bytes w x (shift + 8) (le_bytes n (v / 256)))
      (or_byte w shift acc (v % 256) (omega arith) low one_fits)
    ∙ or_bytes-le_bytes n w (shift + 8) (acc + v % 256 * unit) (v / 256)
        (omega (arith, pow-suc 256 n)) (omega (arith, up, fits)) low'
    ∙ sums
  where
    sums : acc + v % 256 * 2 ^ shift + v / 256 * 2 ^ (shift + 8) ≡ acc + v * 2 ^ shift
    sums = omega (
      arith,
      ap (λ (t : ℕ). v / 256 * t) (shift_eight shift),
      ap (λ (t : ℕ). t * 2 ^ shift) (div-add-mod v 256),
    )

read_all :
    (bs rest : List ℕ) (s : IStream) (n : ℕ)
    → length bs ≡ n
    → StandsAt bs rest s
    → pb_read n s ≡ ok bs (after bs rest s)
read_all bs rest s n size a = rw (← size) (pb_read-Reads bs s rest a.callback a.state a.left)

write_all :
    (bs : List ℕ) (n : ℕ) (o : OStream)
    → length bs ≡ n
    → HasRoom bs o
    → pb_write bs n o ≡ ok tt (stored bs o)
write_all bs n o size r = rw (← size) ((pb_write-Emits bs).writes o r.callback r.room r.size tt)

decodes32 :
    (v : ℕ) (s : IStream) (rest : List ℕ)
    → v < 2 ^ 32
    → StandsAt (le_bytes 4 v) rest s
    → pb_decode_fixed32 s ≡ ok v (after (le_bytes 4 v) rest s)
unfolding pb_decode_fixed32
decodes32 v s rest h a =
    let reads = read_all (le_bytes 4 v) rest s 4 (length-le_bytes 4 v) a in
    rw (reads, or_bytes-le_bytes 4 32 0 0 v h (omega arith) (omega arith)) (ground arith)

decodes64 :
    (v : ℕ) (s : IStream) (rest : List ℕ)
    → v < 2 ^ 64
    → StandsAt (le_bytes 8 v) rest s
    → pb_decode_fixed64 s ≡ ok v (after (le_bytes 8 v) rest s)
unfolding pb_decode_fixed64
decodes64 v s rest h a =
    let reads = read_all (le_bytes 8 v) rest s 8 (length-le_bytes 8 v) a in
    rw (reads, or_bytes-le_bytes 8 64 0 0 v h (omega arith) (omega arith)) (ground arith)

-- Every number of 4 or 8 bytes is stored from its bytes.
pub pb_dec_fixed32-Stores :
    (field : PbField) (v dest : ℕ)
    → v < 2 ^ 32
    → Stores (pb_dec_fixed32 field dest) (le_bytes 4 v) 4 v dest
unfolding pb_dec_fixed32
pb_dec_fixed32-Stores field v dest h s rest c e l =
    rw (decodes32 v s.stream rest h (record { callback = c; state = e; left = l })) refl

pub pb_dec_fixed64-Stores :
    (field : PbField) (v dest : ℕ)
    → v < 2 ^ 64
    → Stores (pb_dec_fixed64 field dest) (le_bytes 8 v) 8 v dest
unfolding pb_dec_fixed64
pb_dec_fixed64-Stores field v dest h s rest c e l =
    rw (decodes64 v s.stream rest h (record { callback = c; state = e; left = l })) refl

-- A fixed32 field, in a memory of bytes: `pb_enc_fixed32` stores the four bytes of the value at
-- `src`, lowest first, in a buffer with room for them, and `pb_dec_fixed32` takes just them off a
-- buffer that begins with them and stores the value at `dest`, and nothing else.
pub pb_dec_fixed32-pb_enc_fixed32 :
    (field : PbField) (m : Memory) (src dest : ℕ) (o : OStream) (s : Input) (rest : List ℕ)
    → IsBytes m
    → HasRoom (le_bytes 4 (load 4 m src)) o
    → StandsAt (le_bytes 4 (load 4 m src)) rest s.stream
    → (pb_enc_fixed32 field m src o ≡ ok tt (stored (le_bytes 4 (load 4 m src)) o))
      × (pb_dec_fixed32 field dest s
          ≡ ok tt (record {
            stream = after (le_bytes 4 (load 4 m src)) rest s.stream;
            memory = store 4 (load 4 m src) s.memory dest;
          }))
unfolding pb_enc_fixed32 pb_dec_fixed32
pb_dec_fixed32-pb_enc_fixed32 field m src dest o s rest bytes r a =
    let v = load 4 m src in
    (
      rw (encodes32 v) (write_all (le_bytes 4 v) 4 o (length-le_bytes 4 v) r),
      rw (decodes32 v s.stream rest (load-lt 4 m src bytes) a) refl,
    )

-- A fixed64 field, in a memory of bytes: `pb_enc_fixed64` stores the eight bytes of the value at
-- `src`, lowest first, in a buffer with room for them, and `pb_dec_fixed64` takes just them off a
-- buffer that begins with them and stores the value at `dest`, and nothing else.
pub pb_dec_fixed64-pb_enc_fixed64 :
    (field : PbField) (m : Memory) (src dest : ℕ) (o : OStream) (s : Input) (rest : List ℕ)
    → IsBytes m
    → HasRoom (le_bytes 8 (load 8 m src)) o
    → StandsAt (le_bytes 8 (load 8 m src)) rest s.stream
    → (pb_enc_fixed64 field m src o ≡ ok tt (stored (le_bytes 8 (load 8 m src)) o))
      × (pb_dec_fixed64 field dest s
          ≡ ok tt (record {
            stream = after (le_bytes 8 (load 8 m src)) rest s.stream;
            memory = store 8 (load 8 m src) s.memory dest;
          }))
unfolding pb_enc_fixed64 pb_dec_fixed64
pb_dec_fixed64-pb_enc_fixed64 field m src dest o s rest bytes r a =
    let v = load 8 m src in
    (
      rw (encodes64 v) (write_all (le_bytes 8 v) 8 o (length-le_bytes 8 v) r),
      rw (decodes64 v s.stream rest (load-lt 8 m src bytes) a) refl,
    )
