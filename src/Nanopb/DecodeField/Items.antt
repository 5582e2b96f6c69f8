-- ===== src/Nanopb/DecodeField/Items.antt =====
-- The decoders of fixed-size items take bytes for an item and keep to it.
use app_card.Base.{
  ℕ, ◌<◌, ◌≡◌, refl, sym, subst, List, take, drop, length-take, take-append-drop, Run, ok, failed,
  fault, stuck, and_then, arith,
}
use native.Mathlib.Decide.{dec_lt}
use app_card.Nanopb.Pb.{PbField, end_of_stream, set_error}
use app_card.Nanopb.Memory.{le_bytes, store}
use app_card.Nanopb.Memory.Laws.{length-le_bytes}
use app_card.Nanopb.IStream.{IStream, read_checked, pb_read}
use app_card.Nanopb.IStream.Contract.{after, pb_read-Reads}
use app_card.Nanopb.IStream.Safety.{Follows, IsReadable, with_message}
use app_card.Nanopb.Decoders.{
  Input, on_stream, put, or_bytes, pb_decode_fixed32, pb_decode_fixed64, pb_dec_fixed32,
  pb_dec_fixed64,
}
use app_card.Nanopb.Decoders.Confined.{Within, same, store_bytes-Within}
use app_card.Nanopb.DecodeField.Arrays.{DecodesItem}

-- A number was read, from at least a byte.
abbrev pub ReadsSome : IStream → Run IStream (Unit {0}) ℕ → Type 0
ReadsSome s (ok v t) = Follows s t × (t.bytes_left < s.bytes_left)
ReadsSome s (failed e t) = Follows s t
ReadsSome s fault = ⊥
ReadsSome s stuck = ⊥

store-Within : (n v a : ℕ) (s : Input) → Within a n s.memory (store n v s.memory a)
unfolding store
store-Within n v a s =
    store_bytes-Within a n s.memory s.memory (le_bytes n v) a (omega arith)
      (omega (arith, length-le_bytes n v)) same

-- A number that is read and stored.
pub put-DecodesItem :
    (n a : ℕ) (s : Input) (r : Run IStream (Unit {0}) ℕ)
    → ReadsSome s.stream r
    → DecodesItem a n s (and_then (on_stream s.memory r) (λ v. put n v a))
put-DecodesItem n a s (ok v t) (follows, less) = (follows, less, store-Within n v a s)
put-DecodesItem n a s (failed e t) follows = (follows, same)
put-DecodesItem n a s fault h = h
put-DecodesItem n a s stuck h = h

read_short :
    (n : ℕ) (s : IStream)
    → 0 < n
    → s.bytes_left < n
    → pb_read n s ≡ failed tt (record s { errmsg = set_error end_of_stream s.errmsg })
unfolding pb_read read_checked
read_short n s pos short = ground arith

-- `n` bytes that are read and made into a number.
number_ReadsSome :
    (n : ℕ) (value : List ℕ → ℕ) (s : IStream)
    → 0 < n
    → IsReadable s
    → ReadsSome s (and_then (pb_read n s) (λ bytes. ok (value bytes)))
number_ReadsSome n value s pos h = elim (dec_lt s.bytes_left n) [
  | yes short ↦ rw (read_short n s pos short) (with_message s)
  | no enough ↦
      let size = length-take n s.state (omega (arith, h.holds)) in
      let reads =
        pb_read-Reads (take n s.state) s (drop n s.state) h.callback
          (sym (take-append-drop n s.state)) (omega (arith, size)) in
      let read =
        subst
          (λ (k : ℕ). pb_read k s ≡ ok (take n s.state) (after (take n s.state) (drop n s.state) s))
          size reads in
      rw read (
        record {
          used = take n s.state;
          callback = refl;
          state = sym (take-append-drop n s.state);
          bytes_left = omega (arith, size);
        },
        omega (arith, size),
      )
]

pub pb_dec_fixed32-DecodesItem :
    (field : PbField) (a : ℕ) (s : Input)
    → IsReadable s.stream
    → DecodesItem a 4 s (pb_dec_fixed32 field a s)
unfolding pb_dec_fixed32 pb_decode_fixed32
pb_dec_fixed32-DecodesItem field a s h =
    put-DecodesItem 4 a s _ (number_ReadsSome 4 (or_bytes 32 0 0) s.stream (omega arith) h)

pub pb_dec_fixed64-DecodesItem :
    (field : PbField) (a : ℕ) (s : Input)
    → IsReadable s.stream
    → DecodesItem a 8 s (pb_dec_fixed64 field a s)
unfolding pb_dec_fixed64 pb_decode_fixed64
pb_dec_fixed64-DecodesItem field a s h =
    put-DecodesItem 8 a s _ (number_ReadsSome 8 (or_bytes 64 0 0) s.stream (omega arith) h)
