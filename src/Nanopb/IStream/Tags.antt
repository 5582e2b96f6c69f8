-- ===== src/Nanopb/IStream/Tags.antt =====
-- What `pb_decode_tag` reads is a 32-bit number, from at least a byte.
use app_card.Base.{
  ℕ, zero, suc, ◌+◌, ◌*◌, ◌%◌, ◌^◌, ◌<◌, ◌≡◌, refl, ap, Bool, true, false, not, ◌&&◌, Bool-cases,
  inl, inr, Option, none, some, List, [], ◌∷◌, bit_and, ◌==◌, leb, if◌then◌else◌, length, Run, ok,
  failed, fault, stuck, and_then, pure, All, arith,
}
use app_card.Base.Bits.{bit_or-lt, bit_and_0x7f}
use app_card.Nanopb.IStream.{
  IStream, Decoder, Tag, pb_readbyte, varint32_step, or_overflow, varint32_loop, varint32_after,
  at_eof, not_eof, pb_decode_varint32_eof, split_tag, pb_decode_tag,
}
use app_card.Nanopb.IStream.Contract.{pb_readbyte-Reads}
use app_card.Nanopb.IStream.Safety.{
  Follows, Settled, Follows-trans, after-Follows, with_message, readbyte_at_end,
}
use native.Mathlib.Decide.{dec_lt}
use app_card.Nanopb.IStream.Settles.{varint32_after-Settles}
use app_card.Nanopb.IStream.Leaves.{IsInput, Follows-IsInput}

-- A result of at most 32 bits, if there is one.
abbrev Fits : {E : Type 0} → Run IStream E ℕ → Type 0
Fits (ok v t) = v < 2 ^ 32
Fits (failed e t) = Unit {0}
Fits fault = Unit {0}
Fits stuck = Unit {0}

bind-Fits :
    {A : Type 0} (r : Run IStream (Unit {0}) A) (k : A → Decoder ℕ)
    → ((a : A) (t : IStream) → Fits (k a t))
    → Fits (and_then r k)
bind-Fits (ok a t) k h = h a t
bind-Fits (failed e t) k h = tt
bind-Fits fault k h = tt
bind-Fits stuck k h = tt

if-Fits :
    (b : Bool) (x y : Decoder ℕ) (s : IStream)
    → Fits (x s)
    → Fits (y s)
    → Fits ((if b then x else y) s)
if-Fits true x y s h h' = h
if-Fits false x y s h h' = h'

if_run-Fits :
    (b : Bool) (x y : Run IStream (Unit {0}) ℕ) → Fits x → Fits y → Fits (if b then x else y)
if_run-Fits true x y h h' = h
if_run-Fits false x y h h' = h'

abbrev StepFits : Option ℕ → Type 0
StepFits none = Unit {0}
StepFits (some v) = v < 2 ^ 32

or_overflow-Fits :
    (o : Option ℕ) (k : ℕ → Decoder ℕ) (s : IStream)
    → StepFits o
    → ((v : ℕ) → v < 2 ^ 32 → Fits (k v s))
    → Fits (or_overflow o k s)
or_overflow-Fits none k s h next = tt
or_overflow-Fits (some v) k s h next = next v h

if-StepFits : (b : Bool) (x y : Option ℕ) → StepFits x → StepFits y → StepFits (if b then x else y)
if-StepFits true x y h h' = h
if-StepFits false x y h h' = h'

varint32_step-Fits :
    (byte bitpos result : ℕ) → result < 2 ^ 32 → StepFits (varint32_step byte bitpos result)
unfolding varint32_step
varint32_step-Fits byte bitpos result h =
    if-StepFits (leb 32 bitpos) _ _ (if-StepFits _ none (some result) tt h)
      (bit_or-lt 32 result (bit_and byte 0x7f * 2 ^ bitpos % 2 ^ 32) h (omega arith))

varint32_loop-Fits :
    (fuel bitpos result : ℕ) (s : IStream)
    → result < 2 ^ 32
    → Fits (varint32_loop fuel bitpos result s)
unfolding varint32_loop
varint32_loop-Fits zero bitpos result s h = tt
varint32_loop-Fits (suc fuel) bitpos result s h = bind-Fits (pb_readbyte s) _ λ byte t.
    or_overflow-Fits (varint32_step byte bitpos result) _ t
      (varint32_step-Fits byte bitpos result h)
      λ v lt.
        if-Fits (bit_and byte 0x80 == 0) _ _ t
          (if-Fits ((bitpos + 7) % 2 ^ 8 == 35 && not (bit_and byte 0x70 == 0)) _ (pure v) t tt lt)
          (varint32_loop-Fits fuel ((bitpos + 7) % 2 ^ 8) v t lt)

seven_bits : (byte : ℕ) → bit_and byte 0x7f < 2 ^ 32
seven_bits byte = omega (arith, bit_and_0x7f byte)

-- A byte was read.
abbrev ReadsOctet : IStream → Run IStream (Unit {0}) ℕ → Type 0
ReadsOctet s (ok b t) = Follows s t × (s.bytes_left ≡ suc t.bytes_left) × (b < 256)
ReadsOctet s (failed e t) = Follows s t
ReadsOctet s fault = ⊥
ReadsOctet s stuck = ⊥

readbyte-ReadsOctet : (s : IStream) → IsInput s → ReadsOctet s (pb_readbyte s)
readbyte-ReadsOctet s input = elim (dec_lt 0 s.bytes_left) [
  | yes pos ↦ front s.state refl input.bytes pos
  | no none_left ↦ rw (readbyte_at_end s (omega arith)) (with_message s)
]
  where
    front :
        (xs : List ℕ)
        → s.state ≡ xs
        → All (λ b. b < 256) xs
        → 0 < s.bytes_left
        → ReadsOctet s (pb_readbyte s)
    front [] e bytes pos = absurd (omega (arith, input.readable.holds, ap length e))
    front (b ∷ rest) e bytes pos =
        rw (pb_readbyte-Reads b s rest input.readable.callback e (omega arith))
          (after-Follows s (b ∷ []) rest e (omega arith), omega arith, bytes.0)

varint32_after-Fits : (byte : ℕ) (s : IStream) → byte < 256 → Fits (varint32_after byte s)
varint32_after-Fits byte s lt =
    if_run-Fits (bit_and byte 0x80 == 0) (ok byte s) _ (omega arith)
      (varint32_loop-Fits (s.bytes_left + 1) 7 (bit_and byte 0x7f) s (seven_bits byte))

-- A tag was read, from at least a byte, and the field's number has less than 30 bits.
abbrev pub ReadsTag : IStream → Run IStream Bool Tag → Type 0
ReadsTag s (ok t u) = Follows s u × (u.bytes_left < s.bytes_left) × (t.tag < 2 ^ 29)
ReadsTag s (failed e u) = Follows s u
ReadsTag s fault = ⊥
ReadsTag s stuck = ⊥

split_tag-ReadsTag :
    (s u : IStream) (v : ℕ)
    → Follows s u
    → u.bytes_left < s.bytes_left
    → v < 2 ^ 32
    → ReadsTag s (split_tag v u)
split_tag-ReadsTag s u v f less lt = elim (Bool-cases (v == 0)) [
  | inl zero_tag ↦ rw zero_tag f
  | inr tagged ↦ rw tagged (f, less, omega arith)
]

tag_after :
    {s : IStream} (r : Run IStream (Unit {0}) ℕ)
    → IsInput s
    → ReadsOctet s r
    → ReadsTag s
        (and_then (and_then (at_eof r) (λ byte t. not_eof (varint32_after byte t))) split_tag)
tag_after {s} (ok b t) input (f, one, lt) =
    more (varint32_after b t) (varint32_after-Settles b t ((Follows-IsInput f input).readable))
      (varint32_after-Fits b t lt)
  where
    more :
        (r : Run IStream (Unit {0}) ℕ)
        → Settled t r
        → Fits r
        → ReadsTag s (and_then (not_eof r) split_tag)
    more (ok v u) g fits =
        split_tag-ReadsTag s u v (Follows-trans f g) (omega (arith, one, g.bytes_left)) fits
    more (failed e u) g fits = Follows-trans f g
    more fault g fits = g
    more stuck g fits = g
tag_after (failed e t) input h = h
tag_after fault input h = h
tag_after stuck input h = h

pub pb_decode_tag-ReadsTag : (s : IStream) → IsInput s → ReadsTag s (pb_decode_tag s)
unfolding pb_decode_tag pb_decode_varint32_eof
pb_decode_tag-ReadsTag s input = tag_after (pb_readbyte s) input (readbyte-ReadsOctet s input)
