-- ===== src/Nanopb/Substream/Opens.antt =====
-- A substream stays inside its stream on any bytes: whatever a decoder leaves of it, closing it
-- succeeds, and the stream has then lost bytes at its front.
use app_card.Base.{
  ℕ, ◌-◌, ◌≤◌, ◌<◌, ◌==◌, subst, false, true, ◌≡◌, refl, ap, ◌∙◌, sym, List, [], ◌++◌, All, Option,
  append_assoc, length-append, take, drop, length-take, take-append-drop, Run, ok, failed, fault,
  stuck, and_then, ltb, arith,
}
use native.Mathlib.Decide.{dec_lt}
use app_card.Nanopb.IStream.{IStream, pb_read_null, pb_decode_varint32}
use app_card.Nanopb.IStream.Contract.{after, pb_read_null-Reads}
use app_card.Nanopb.IStream.Safety.{
  Follows, Settled, IsReadable, Follows-trans, Follows-IsReadable, with_message,
}
use app_card.Nanopb.IStream.Leaves.{
  Leaves, Follows-Leaves, Leaves-trans, Leaves-IsReadable, Follows-bytes,
}
use app_card.Nanopb.Pb.{ErrMsg}
use app_card.Nanopb.IStream.Settles.{pb_decode_varint32-Settles}
use app_card.Nanopb.Substream.{limited, pb_make_string_substream, pb_close_string_substream}

-- A substream `sub` of `s`, `t` being what is left of that.
pub record Closes (s sub t : IStream) : Type 0 where
  pub readable : IsReadable sub
  pub close :
      (u : IStream)
      → Follows sub u
      → (t' : IStream) × (pb_close_string_substream u t ≡ ok tt t') × Follows s t'
  pub left : Leaves s t
  pub bytes : All (λ b. b < 256) s.state → All (λ b. b < 256) sub.state
  pub close_failed :
      (u : IStream) (m : Option ErrMsg)
      → Leaves sub u
      → (t' : IStream) × (pb_close_string_substream u (record t { errmsg = m }) ≡ ok tt t')
        × Leaves s t'

unfoldable pub Opens : IStream → Run IStream (Unit {0}) IStream → Type 0
Opens s (ok sub t) = Closes s sub t
Opens s (failed e t) = Follows s t
Opens s fault = ⊥
Opens s stuck = ⊥

-- What is left of a stream that can be read is skipped.
skips_rest :
    (u : IStream)
    → IsReadable u
    → pb_read_null u.bytes_left u
      ≡ ok tt (after (take u.bytes_left u.state) (drop u.bytes_left u.state) u)
skips_rest u h =
    let size = length-take u.bytes_left u.state h.holds in
    let reads =
      pb_read_null-Reads (take u.bytes_left u.state) u (drop u.bytes_left u.state) h.callback
        (sym (take-append-drop u.bytes_left u.state)) (omega (arith, size)) in
    subst
      (λ (n : ℕ).
        pb_read_null n u ≡ ok tt (after (take u.bytes_left u.state) (drop u.bytes_left u.state) u))
      size reads

close_at_end :
    (u t : IStream)
    → u.bytes_left ≡ 0
    → pb_close_string_substream u t ≡ ok tt (record t { state = u.state; errmsg = u.errmsg })
unfolding pb_close_string_substream
close_at_end u t h = ground arith

close_before_end :
    (u t : IStream)
    → IsReadable u
    → 0 < u.bytes_left
    → pb_close_string_substream u t
      ≡ ok tt (record t { state = drop u.bytes_left u.state; errmsg = u.errmsg })
unfolding pb_close_string_substream
close_before_end u t h pos =
    let left : (u.bytes_left == 0) ≡ false = ground arith in rw (left, skips_rest u h) refl

close_rest :
    (u t : IStream)
    → IsReadable u
    → pb_close_string_substream u t
      ≡ ok tt (record t { state = drop u.bytes_left u.state; errmsg = u.errmsg })
close_rest u t h = elim (dec_lt 0 u.bytes_left) [
  | yes pos ↦ close_before_end u t h pos
  | no none ↦
      let empty : u.bytes_left ≡ 0 = omega arith in
      close_at_end u t empty
      ∙ ap (λ (n : ℕ). ok tt (record t { state = drop n u.state; errmsg = u.errmsg })) (sym empty)
]

limited-Closes :
    (s t : IStream) (size : ℕ)
    → Follows s t
    → IsReadable t
    → size ≤ t.bytes_left
    → Closes s (record t { bytes_left = size }) (record t { bytes_left = t.bytes_left - size })
limited-Closes s t size f h fits = record {
  readable = record { callback = h.callback; holds = omega (arith, h.holds) };
  close = λ u g.
      let readable =
        Follows-IsReadable g (record { callback = h.callback; holds = omega (arith, h.holds) }) in
      let skipped = take u.bytes_left u.state in
      let count = length-take u.bytes_left u.state readable.holds in
      (
        _,
        close_rest u (record t { bytes_left = t.bytes_left - size }) readable,
        Follows-trans f (record {
          used = g.used ++ skipped;
          callback = refl;
          state =
              g.state
              ∙ ap (λ (x : List ℕ). g.used ++ x) (sym (take-append-drop u.bytes_left u.state))
              ∙ sym (append_assoc g.used skipped (drop u.bytes_left u.state));
          bytes_left = omega (arith, g.bytes_left, count, length-append g.used skipped);
        }),
      );
  left =
      Leaves-trans (Follows-Leaves f)
        (record { used = []; callback = refl; state = refl; bytes_left = omega arith });
  bytes = λ all. Follows-bytes f all;
  close_failed = λ u m g.
      let readable =
        Leaves-IsReadable g (record { callback = h.callback; holds = omega (arith, h.holds) }) in
      let skipped = take u.bytes_left u.state in
      let count = length-take u.bytes_left u.state readable.holds in
      (
        _,
        close_rest u (record t { bytes_left = t.bytes_left - size; errmsg = m }) readable,
        Leaves-trans (Follows-Leaves f) (record {
          used = g.used ++ skipped;
          callback = refl;
          state =
              g.state
              ∙ ap (λ (x : List ℕ). g.used ++ x) (sym (take-append-drop u.bytes_left u.state))
              ∙ sym (append_assoc g.used skipped (drop u.bytes_left u.state));
          bytes_left = omega (arith, g.bytes_left, count, length-append g.used skipped);
        }),
      );
}

-- `pb_make_string_substream` of a buffer stream that can be read.
pub pb_make_string_substream-Opens :
    (s : IStream) → IsReadable s → Opens s (pb_make_string_substream s)
unfolding pb_make_string_substream Opens
pb_make_string_substream-Opens s h = opened (pb_decode_varint32 s) (pb_decode_varint32-Settles s h)
  where
    opened : (r : Run IStream (Unit {0}) ℕ) → Settled s r → Opens s (and_then r limited)
    opened (ok size t) f = elim (dec_lt t.bytes_left size) [
      | yes short ↦
          let long : ltb t.bytes_left size ≡ true = ground arith in
          rw long (Follows-trans f (with_message t))
      | no enough ↦
          let fits : ltb t.bytes_left size ≡ false = ground arith in
          rw fits (limited-Closes s t size f (Follows-IsReadable f h) (omega arith))
    ]
    opened (failed e t) f = f
    opened fault f = f
    opened stuck f = f
