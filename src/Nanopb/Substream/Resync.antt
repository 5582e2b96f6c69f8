-- ===== src/Nanopb/Substream/Resync.antt =====
-- However much of a field its decoder took, closing the substream leaves the stream behind the field.
use app_card.Base.{
  ℕ, ◌+◌, ◌-◌, ◌^◌, ◌≤◌, ◌<◌, ◌≡◌, ◌∙◌, sym, List, [], ◌∷◌, ◌++◌, arith, length, ok,
}
use app_card.Nanopb.OStream.Varint.{varint}
use app_card.Nanopb.IStream.{IStream, buf_read_callback, pb_read_null}
use app_card.Nanopb.IStream.Contract.{after, pb_read_null-Reads}
use app_card.Nanopb.IStream.Varint32.{pb_decode_varint32-varint}
use app_card.Nanopb.IStream.Safety.{Follows}
use app_card.Nanopb.Substream.{pb_make_string_substream, pb_close_string_substream}

-- The substream and the stream that `pb_make_string_substream` makes at a field `bs`.
abbrev pub substream : List ℕ → List ℕ → IStream → IStream
substream bs rest s = record s { state = bs ++ rest; bytes_left = length bs }

abbrev pub parent : List ℕ → List ℕ → IStream → IStream
parent bs rest s = record s {
  state = bs ++ rest;
  bytes_left = s.bytes_left - (length (varint (length bs)) + length bs);
}

pub make_substream :
    (bs : List ℕ) (s : IStream) (rest : List ℕ)
    → length bs < 2 ^ 32
    → s.callback ≡ buf_read_callback
    → s.state ≡ varint (length bs) ++ (bs ++ rest)
    → length (varint (length bs)) + length bs ≤ s.bytes_left
    → pb_make_string_substream s ≡ ok (substream bs rest s) (parent bs rest s)
unfolding pb_make_string_substream
make_substream bs s rest hb c e h =
    ground (arith, pb_decode_varint32-varint (length bs) hb s (bs ++ rest) c e (omega arith))

append_split :
    (bs used rest ys : List ℕ)
    → bs ++ rest ≡ used ++ ys
    → length used ≤ length bs
    → (mid : List ℕ) × (length bs ≡ length used + length mid) × (ys ≡ mid ++ rest)
append_split bs [] rest ys e h = (bs, omega arith, sym e)
append_split [] (u ∷ used) rest ys e h = absurd (omega arith)
append_split (b ∷ bs) (u ∷ used) rest ys e h =
    let (mid, size, tail) = append_split bs used rest ys (ground arith) (omega arith) in
    (mid, omega arith, tail)

close_substream :
    (bs : List ℕ) (s : IStream) (rest : List ℕ) (u : IStream)
    → s.callback ≡ buf_read_callback
    → Follows (substream bs rest s) u
    → pb_close_string_substream u (parent bs rest s)
      ≡ ok tt (record (parent bs rest s) { state = rest; errmsg = u.errmsg })
unfolding pb_close_string_substream
close_substream bs s rest u c f =
    let (mid, size, tail) =
      append_split bs f.used rest u.state f.state (omega (arith, f.bytes_left)) in
    let left : u.bytes_left ≡ length mid = omega (arith, f.bytes_left) in
    let skips = pb_read_null-Reads mid u rest (f.callback ∙ c) tail (omega arith) in
    finish mid tail left skips
  where
    finish :
        (mid : List ℕ)
        → u.state ≡ mid ++ rest
        → u.bytes_left ≡ length mid
        → pb_read_null (length mid) u ≡ ok tt (after mid rest u)
        → pb_close_string_substream u (parent bs rest s)
          ≡ ok tt (record (parent bs rest s) { state = rest; errmsg = u.errmsg })
    finish [] e l k = ground arith
    finish (m ∷ ms) e l k = ground arith

-- On a buffer stream that stands at a length-prefixed field `bs` of less than 2 ^ 32 bytes,
-- `pb_make_string_substream` makes a substream limited to `bs`. Whatever of `bs` a decoder that
-- follows the substream leaves, `pb_close_string_substream` succeeds and leaves the stream right
-- behind the field.
pub substream_resync :
    (bs : List ℕ) (s : IStream) (rest : List ℕ) (u : IStream)
    → length bs < 2 ^ 32
    → s.callback ≡ buf_read_callback
    → s.state ≡ varint (length bs) ++ (bs ++ rest)
    → length (varint (length bs)) + length bs ≤ s.bytes_left
    → Follows (substream bs rest s) u
    → (pb_make_string_substream s ≡ ok (substream bs rest s) (parent bs rest s))
      × (pb_close_string_substream u (parent bs rest s)
          ≡ ok tt (record (parent bs rest s) { state = rest; errmsg = u.errmsg }))
substream_resync bs s rest u hb c e h f =
    (make_substream bs s rest hb c e h, close_substream bs s rest u c f)
