-- ===== src/Nanopb/IStream/Contract.antt =====
-- What a decoder promises: from a buffer that begins with its bytes it reads its value, takes
-- those bytes, and looks at no other.
use app_card.Base.{
  ℕ, ◌-◌, ◌≤◌, ◌≡◌, refl, ap, List, [], ◌∷◌, ◌++◌, append_assoc, arith, length, length-append,
  take-append_length, drop-append_length, ok, Cmd, ◌>>=◌,
}
use app_card.Nanopb.IStream.{
  IStream, buf_read_callback, read_checked, pb_read, pb_read_null, pb_readbyte,
}

-- The stream after `bs` was taken off and `rest` is left in the buffer.
abbrev pub after : List ℕ → List ℕ → IStream → IStream
after bs rest s = record s { state = rest; bytes_left = s.bytes_left - length bs }

-- `d` reads `a` from `bs`.
abbrev pub Reads : {E A : Type 0} → Cmd IStream E A → List ℕ → A → Type 0
Reads d bs a =
    (s : IStream) (rest : List ℕ)
    → s.callback ≡ buf_read_callback
    → s.state ≡ bs ++ rest
    → length bs ≤ s.bytes_left
    → d s ≡ ok a (after bs rest s)

pub read_checked-Reads : (bs : List ℕ) → Reads (read_checked (length bs)) bs bs
unfolding read_checked
read_checked-Reads bs s rest c e h =
    ground (arith, e, take-append_length bs rest, drop-append_length bs rest, length-append bs rest)

pub pb_read-Reads : (bs : List ℕ) → Reads (pb_read (length bs)) bs bs
unfolding pb_read
pb_read-Reads [] s rest c e h = ground arith
pb_read-Reads (b ∷ bs) s rest c e h = ground (arith, read_checked-Reads (b ∷ bs) s rest)

pub pb_read_null-Reads : (bs : List ℕ) → Reads (pb_read_null (length bs)) bs tt
unfolding pb_read_null
pb_read_null-Reads [] s rest c e h = ground arith
pb_read_null-Reads (b ∷ bs) s rest c e h = ground (arith, read_checked-Reads (b ∷ bs) s rest)

pub pb_readbyte-Reads : (b : ℕ) → Reads pb_readbyte (b ∷ []) b
unfolding pb_readbyte
pb_readbyte-Reads b s rest c e h = ground (arith, e)

-- One decoder after another reads the second value from behind the first.
pub bind-Reads :
    {E A B : Type 0} (m : Cmd IStream E A) (k : A → Cmd IStream E B) (bs cs : List ℕ) {a : A}
    {b : B}
    → Reads m bs a
    → Reads (k a) cs b
    → Reads (m >>= k) (bs ++ cs) b
bind-Reads m k bs cs hm hk s rest c e h =
    rw
      (
        hm s (cs ++ rest) c (rw (e, append_assoc) refl) (omega (arith, length-append bs cs)),
        hk (after bs (cs ++ rest) s) rest c refl (omega (arith, length-append bs cs)),
      )
      (ground (arith, length-append bs cs))

-- What is behind one part and then another.
pub after-append :
    (bs cs rest : List ℕ) (s : IStream)
    → after cs rest (after bs (cs ++ rest) s) ≡ after (bs ++ cs) rest s
after-append bs cs rest s =
    ap (λ (n : ℕ). record s { state = rest; bytes_left = n }) (omega (arith, length-append bs cs))
