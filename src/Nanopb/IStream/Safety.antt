-- ===== src/Nanopb/IStream/Safety.antt =====
-- On any bytes at all a decoder of a buffer stream stays inside the buffer and returns: it
-- takes bytes off the front, and what it took is what `bytes_left` went down by.
use app_card.Base.{
  ℕ, zero, suc, ◌+◌, ◌*◌, ◌%◌, ◌^◌, ◌≤◌, ◌<◌, ◌≡◌, refl, ap, ◌∙◌, sym, Bool, true, false, Option,
  none, some, List, [], ◌∷◌, ◌++◌, append_assoc, arith, length, length-append, length-take,
  take-append-drop, drop, take, bit_or, leb, Run, ok, failed, fault, stuck, Cmd, and_then, bit_and,
  ◌==◌, pure, if◌then◌else◌,
}
use app_card.Nanopb.Pb.{ErrMsg, end_of_stream, varint_overflow}
use app_card.Nanopb.IStream.{
  IStream, buf_read_callback, Decoder, return_error, read_checked, pb_read, pb_readbyte, only_byte,
  varint32_step, or_overflow, varint32_loop, varint_loop, skip_varint_loop,
}
use app_card.Nanopb.IStream.Contract.{after, pb_read-Reads, read_checked-Reads, pb_readbyte-Reads}
use native.Mathlib.Decide.{dec_lt}

-- `t` is `s` with `used` taken off.
pub record Follows (s t : IStream) : Type 0 where
  pub used : List ℕ
  pub callback : t.callback ≡ s.callback
  pub state : s.state ≡ used ++ t.state
  pub bytes_left : s.bytes_left ≡ length used + t.bytes_left

-- A return, with success or failure, in a stream that follows `s`.
abbrev pub Settled : {E A : Type 0} → IStream → Run IStream E A → Type 0
Settled s (ok a t) = Follows s t
Settled s (failed e t) = Follows s t
Settled s fault = ⊥
Settled s stuck = ⊥

-- A buffer stream whose buffer holds what `bytes_left` promises.
pub record IsReadable (s : IStream) : Type 0 where
  pub callback : s.callback ≡ buf_read_callback
  pub holds : s.bytes_left ≤ length s.state

pub Follows-refl : (s : IStream) → Follows s s
Follows-refl s = record { used = []; callback = refl; state = refl; bytes_left = omega arith }

pub Follows-trans : {s t u : IStream} → Follows s t → Follows t u → Follows s u
Follows-trans {s} {t} {u} p q = record {
  used = p.used ++ q.used;
  callback = q.callback ∙ p.callback;
  state = p.state ∙ ap (λ x. p.used ++ x) q.state ∙ sym (append_assoc p.used q.used u.state);
  bytes_left = omega (arith, p.bytes_left, q.bytes_left, length-append p.used q.used);
}

pub Follows-IsReadable : {s t : IStream} → Follows s t → IsReadable s → IsReadable t
Follows-IsReadable {s} {t} p h = record {
  callback = p.callback ∙ h.callback;
  holds = omega (arith, p.bytes_left, h.holds, ap length p.state, length-append p.used t.state);
}

pub Settled-trans :
    {E A : Type 0} {s t : IStream} (r : Run IStream E A) → Follows s t → Settled t r → Settled s r
Settled-trans (ok a u) p q = Follows-trans p q
Settled-trans (failed e u) p q = Follows-trans p q
Settled-trans fault p q = q
Settled-trans stuck p q = q

pub Settled-bind :
    {E A B : Type 0} {s : IStream} (r : Run IStream E A) (k : A → Cmd IStream E B)
    → IsReadable s
    → Settled s r
    → ((a : A) (t : IStream) → IsReadable t → Settled t (k a t))
    → Settled s (and_then r k)
Settled-bind (ok a t) k h p next = Settled-trans (k a t) p (next a t (Follows-IsReadable p h))
Settled-bind (failed e t) k h p next = p
Settled-bind fault k h p next = p
Settled-bind stuck k h p next = p

pub with_message : (s : IStream) {m : Option ErrMsg} → Follows s (record s { errmsg = m })
with_message s = record { used = []; callback = refl; state = refl; bytes_left = omega arith }

pub after-Follows :
    (s : IStream) (bs rest : List ℕ)
    → s.state ≡ bs ++ rest
    → length bs ≤ s.bytes_left
    → Follows s (after bs rest s)
after-Follows s bs rest e h = record {
  used = bs;
  callback = refl;
  state = e;
  bytes_left = omega arith;
}

-- `pb_readbyte` fails, or returns a byte and counts it.
unfoldable pub ReadsByte : IStream → Run IStream (Unit {0}) ℕ → Type 0
ReadsByte s (ok b t) = Follows s t × (s.bytes_left ≡ suc t.bytes_left)
ReadsByte s (failed e t) = Follows s t
ReadsByte s fault = ⊥
ReadsByte s stuck = ⊥

pub readbyte_at_end :
    (s : IStream) → s.bytes_left ≡ 0 → pb_readbyte s ≡ return_error end_of_stream s
unfolding pb_readbyte
readbyte_at_end s z = ground arith

pub readbyte_lem : (s : IStream) → IsReadable s → ReadsByte s (pb_readbyte s)
unfolding ReadsByte
readbyte_lem s h = elim (dec_lt 0 s.bytes_left) [
  | yes pos ↦ front s.state refl pos
  | no none_left ↦ rw (readbyte_at_end s (omega arith)) (with_message s)
]
  where
    front : (xs : List ℕ) → s.state ≡ xs → 0 < s.bytes_left → ReadsByte s (pb_readbyte s)
    front [] e pos = absurd (omega (arith, h.holds, ap length e))
    front (b ∷ rest) e pos =
        rw (pb_readbyte-Reads b s rest h.callback e (omega arith))
          (after-Follows s (b ∷ []) rest e (omega arith), omega arith)

pub ReadsByte-Settled : (s : IStream) (r : Run IStream (Unit {0}) ℕ) → ReadsByte s r → Settled s r
unfolding ReadsByte
ReadsByte-Settled s (ok b t) h = h.0
ReadsByte-Settled s (failed e t) h = h
ReadsByte-Settled s fault h = h
ReadsByte-Settled s stuck h = h

pub read_one_lem : (s : IStream) → IsReadable s → ReadsByte s (and_then (pb_read 1 s) only_byte)
unfolding ReadsByte
read_one_lem s h = elim (dec_lt 0 s.bytes_left) [
  | yes pos ↦ front s.state refl pos
  | no none_left ↦ rw (at_end (omega arith)) (with_message s)
]
  where
    at_end : s.bytes_left ≡ 0 → pb_read 1 s ≡ return_error end_of_stream s
    at_end z = unfold pb_read read_checked in ground arith

    front :
        (xs : List ℕ)
        → s.state ≡ xs
        → 0 < s.bytes_left
        → ReadsByte s (and_then (pb_read 1 s) only_byte)
    front [] e pos = absurd (omega (arith, h.holds, ap length e))
    front (b ∷ rest) e pos =
        rw (pb_read-Reads (b ∷ []) s rest h.callback e (omega arith))
          (after-Follows s (b ∷ []) rest e (omega arith), omega arith)

-- A loop that reads a byte in each round: the rounds that follow start with less fuel.
pub byte_then :
    {A : Type 0} {s : IStream} (r : Run IStream (Unit {0}) ℕ) (k : ℕ → Decoder A)
    → IsReadable s
    → ReadsByte s r
    → ((b : ℕ) (t : IStream) → IsReadable t → t.bytes_left < s.bytes_left → Settled t (k b t))
    → Settled s (and_then r k)
unfolding ReadsByte
byte_then (ok b t) k h p next =
    Settled-trans (k b t) p.0 (next b t (Follows-IsReadable p.0 h) (omega (arith, p.1)))
byte_then (failed e t) k h p next = p
byte_then fault k h p next = p
byte_then stuck k h p next = p

pub if-Settled :
    {E A : Type 0} (b : Bool) (x y : Cmd IStream E A) (s : IStream)
    → (b ≡ true → Settled s (x s))
    → (b ≡ false → Settled s (y s))
    → Settled s ((if b then x else y) s)
if-Settled true x y s p q = p refl
if-Settled false x y s p q = q refl

pub if_run-Settled :
    {E A : Type 0} (b : Bool) (x y : Run IStream E A) (s : IStream)
    → (b ≡ true → Settled s x)
    → (b ≡ false → Settled s y)
    → Settled s (if b then x else y)
if_run-Settled true x y s p q = p refl
if_run-Settled false x y s p q = q refl

or_overflow-Settled :
    (o : Option ℕ) (k : ℕ → Decoder ℕ) (s : IStream)
    → ((a : ℕ) → Settled s (k a s))
    → Settled s (or_overflow o k s)
or_overflow-Settled none k s h = with_message s
or_overflow-Settled (some a) k s h = h a

pub varint32_loop-Settled :
    (fuel bitpos acc : ℕ) (s : IStream)
    → IsReadable s
    → s.bytes_left < fuel
    → Settled s (varint32_loop fuel bitpos acc s)
unfolding varint32_loop
varint32_loop-Settled zero bitpos acc s h f = absurd (omega arith)
varint32_loop-Settled (suc fuel) bitpos acc s h f =
    byte_then (pb_readbyte s) _ h (readbyte_lem s h) λ b t ht less.
      or_overflow-Settled (varint32_step b bitpos acc) _ t λ result.
        if-Settled (bit_and b 0x80 == 0) _ _ t
          (λ _.
            if-Settled _ (return_error varint_overflow) (pure result) t (λ _. with_message t)
              (λ _. Follows-refl t))
          (λ _. varint32_loop-Settled fuel ((bitpos + 7) % 2 ^ 8) result t ht (omega arith))

pub varint_loop-Settled :
    (fuel bitpos acc : ℕ) (s : IStream)
    → IsReadable s
    → bitpos ≤ 70
    → 70 < bitpos + 7 * fuel
    → Settled s (varint_loop fuel bitpos acc s)
unfolding varint_loop
varint_loop-Settled zero bitpos acc s h p f = absurd (omega arith)
varint_loop-Settled (suc fuel) bitpos acc s h p f =
    if-Settled (leb 64 bitpos) (return_error varint_overflow) _ s (λ _. with_message s)
      λ low. byte_then (pb_readbyte s) _ h (readbyte_lem s h) λ b t ht less.
        let result = bit_or acc (bit_and b 0x7f * 2 ^ bitpos % 2 ^ 64) in
        if-Settled (bit_and b 0x80 == 0) _ _ t (λ _. Follows-refl t)
          (λ _.
            varint_loop-Settled fuel ((bitpos + 7) % 2 ^ 8) result t ht (ground arith)
              (ground arith))

pub skip_varint_loop-Settled :
    (fuel : ℕ) (s : IStream)
    → IsReadable s
    → s.bytes_left < fuel
    → Settled s (skip_varint_loop fuel s)
unfolding skip_varint_loop
skip_varint_loop-Settled zero s h f = absurd (omega arith)
skip_varint_loop-Settled (suc fuel) s h f =
    byte_then (and_then (pb_read 1 s) only_byte) _ h (read_one_lem s h) λ b t ht less.
      if-Settled (bit_and b 0x80 == 0) (pure tt) _ t (λ _. Follows-refl t)
        (λ _. skip_varint_loop-Settled fuel t ht (omega arith))

pub read_checked-Settled :
    (count : ℕ) (s : IStream) → IsReadable s → Settled s (read_checked count s)
read_checked-Settled count s h = elim (dec_lt s.bytes_left count) [
  | yes short ↦ rw (too_short short) (with_message s)
  | no enough ↦
      let bs = take count s.state in
      let size : length bs ≡ count = length-take count s.state (omega (arith, h.holds)) in
      let split = sym (take-append-drop count s.state) in
      rw (← size) (
        rw (read_checked-Reads bs s (drop count s.state) h.callback split (omega arith))
          (after-Follows s bs _ split (omega arith)))
]
  where
    too_short : s.bytes_left < count → read_checked count s ≡ return_error end_of_stream s
    too_short short = unfold read_checked in ground arith
