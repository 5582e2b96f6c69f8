-- ===== src/Nanopb/IStream/Leaves.antt =====
-- What a decoder that fails may leave of a buffer stream, and streams whose buffers hold bytes.
use app_card.Base.{
  ℕ, ◌+◌, ◌≤◌, ◌<◌, ◌≡◌, ap, ◌∙◌, sym, subst, List, [], ◌∷◌, ◌++◌, append_assoc, arith, length,
  length-append, All,
}
use app_card.Nanopb.IStream.{IStream}
use app_card.Nanopb.IStream.Safety.{Follows, IsReadable, Follows-IsReadable}

-- `t` is `s` with `used` taken off, and with no more bytes left to it than the buffer has.
pub record Leaves (s t : IStream) : Type 0 where
  pub used : List ℕ
  pub callback : t.callback ≡ s.callback
  pub state : s.state ≡ used ++ t.state
  pub bytes_left : length used + t.bytes_left ≤ s.bytes_left

pub Follows-Leaves : {s t : IStream} → Follows s t → Leaves s t
Follows-Leaves f = record {
  used = f.used;
  callback = f.callback;
  state = f.state;
  bytes_left = omega (arith, f.bytes_left);
}

pub Leaves-trans : {s t u : IStream} → Leaves s t → Leaves t u → Leaves s u
Leaves-trans {s} {t} {u} p q = record {
  used = p.used ++ q.used;
  callback = q.callback ∙ p.callback;
  state = p.state ∙ ap (λ x. p.used ++ x) q.state ∙ sym (append_assoc p.used q.used u.state);
  bytes_left = omega (arith, p.bytes_left, q.bytes_left, length-append p.used q.used);
}

pub Leaves-IsReadable : {s t : IStream} → Leaves s t → IsReadable s → IsReadable t
Leaves-IsReadable {s} {t} p h = record {
  callback = p.callback ∙ h.callback;
  holds = omega (arith, p.bytes_left, h.holds, ap length p.state, length-append p.used t.state);
}

-- A buffer stream whose buffer holds what `bytes_left` promises, in bytes.
pub record IsInput (s : IStream) : Type 0 where
  pub readable : IsReadable s
  pub bytes : All (λ b. b < 256) s.state

All-back : (xs ys : List ℕ) → All (λ b. b < 256) (xs ++ ys) → All (λ b. b < 256) ys
All-back [] ys h = h
All-back (x ∷ xs) ys h = All-back xs ys h.1

pub Follows-bytes :
    {s t : IStream} → Follows s t → All (λ b. b < 256) s.state → All (λ b. b < 256) t.state
Follows-bytes {s} {t} f h = All-back f.used t.state (subst (All (λ b. b < 256)) f.state h)

pub Follows-IsInput : {s t : IStream} → Follows s t → IsInput s → IsInput t
Follows-IsInput {s} {t} f h = record {
  readable = Follows-IsReadable f h.readable;
  bytes = Follows-bytes f h.bytes;
}
