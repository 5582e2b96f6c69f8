-- ===== src/Nanopb/OStream/Contract.antt =====
-- What an encoder promises: it emits a fixed list of bytes, on every kind of library stream.
use app_card.Base.{
  Option, none, ℕ, ◌+◌, ◌^◌, ◌≤◌, ◌<◌, ◌≡◌, refl, ap, ◌∙◌, sym, List, [], ◌∷◌, ◌++◌, append-nil,
  append_assoc, arith, length, length-append, take-length, Run, ok, failed, ◌>>◌,
}
use native.Mathlib.Decide.{dec_lt}
use app_card.Nanopb.Pb.{ErrMsg, stream_full, set_error}
use app_card.Nanopb.OStream.{OStream, null_callback, buf_write_callback, Encoder, pb_write}

nil_of_length : (bs : List ℕ) → length bs ≡ 0 → bs ≡ []
nil_of_length [] h = refl
nil_of_length (b ∷ bs) h = absurd (omega arith)

-- The stream after `bs` was measured, or stored.
abbrev pub measured : List ℕ → OStream → OStream
measured bs s = record s { bytes_written = s.bytes_written + length bs }

abbrev pub stored : List ℕ → OStream → OStream
stored bs s = record s { state = s.state ++ bs; bytes_written = s.bytes_written + length bs }

-- A failure for lack of room: whole writes at the front of `bs` were stored, and the rest was not.
pub record IsFull (bs : List ℕ) (s : OStream) (r : Run OStream (Unit {0}) (Unit {0})) : Type 0 where
  pub after : OStream
  pub front : List ℕ
  pub back : List ℕ
  pub splits : bs ≡ front ++ back
  pub result : r ≡ failed tt after
  pub message : after.errmsg ≡ set_error stream_full s.errmsg
  pub stored_front : after.state ≡ s.state ++ front
  pub counted : after.bytes_written ≡ s.bytes_written + length front
  pub within : s.bytes_written + length front ≤ s.max_size

-- `f` emits `bs` on a stream whose message and size `Q` allows: a sizing stream counts them, a buffer with
-- room stores them, and a buffer without room reports "stream full" and is never overrun.
pub record EmitsFrom (Q : Option ErrMsg → ℕ → Type 0) (f : Encoder) (bs : List ℕ) : Type 0 where
  pub sizes :
      (s : OStream)
      → s.callback ≡ null_callback
      → s.bytes_written + length bs < 2 ^ 64
      → Q s.errmsg s.max_size
      → f s ≡ ok tt (measured bs s)
  pub writes :
      (s : OStream)
      → s.callback ≡ buf_write_callback
      → s.bytes_written + length bs ≤ s.max_size
      → s.max_size < 2 ^ 64
      → Q s.errmsg s.max_size
      → f s ≡ ok tt (stored bs s)
  pub overflows :
      (s : OStream)
      → s.callback ≡ buf_write_callback
      → s.bytes_written ≤ s.max_size
      → s.max_size < s.bytes_written + length bs
      → s.max_size < 2 ^ 64
      → length bs < 2 ^ 64
      → Q s.errmsg s.max_size
      → IsFull bs s (f s)

-- On every stream, or on a stream that has no message and the size that an object can have.
abbrev pub Emits : Encoder → List ℕ → Type 0
Emits f bs = EmitsFrom (λ e n. Unit {0}) f bs

abbrev pub Sends : Encoder → List ℕ → Type 0
Sends f bs = EmitsFrom (λ e n. (e ≡ none) × (n < 2 ^ 63)) f bs

pub Emits-Sends : {f : Encoder} {bs : List ℕ} → Emits f bs → Sends f bs
Emits-Sends h = record {
  sizes = λ s c l e. h.sizes s c l tt;
  writes = λ s c l m e. h.writes s c l m tt;
  overflows = λ s c h' o m l e. h.overflows s c h' o m l tt;
}

pub pb_write-Emits : (bs : List ℕ) → Emits (pb_write bs (length bs)) bs
unfolding pb_write
pb_write-Emits bs = record {
  sizes = λ s c h q. ground arith;
  writes = λ s c h m q. ground (arith, take-length bs, append-nil s.state, nil_of_length bs);
  overflows = λ s c h o m l q. record {
    after = record s { errmsg = set_error stream_full s.errmsg };
    front = [];
    back = bs;
    splits = refl;
    result = ground arith;
    message = refl;
    stored_front = sym (append-nil s.state);
    counted = omega arith;
    within = omega arith;
  };
}

-- An encoder that emits nothing.
pub pure-Emits : Emits (ok tt) []
pure-Emits = record {
  sizes = λ s c h q. ground arith;
  writes = λ s c h m q. ground (arith, append-nil s.state);
  overflows = λ s c h o m l q. absurd (omega arith);
}

module _ {Q : Option ErrMsg → ℕ → Type 0} {f g : Encoder} {bs cs : List ℕ} (hf : EmitsFrom Q f bs)
    (hg : EmitsFrom Q g cs) where
  seq_sizes :
      (s : OStream)
      → s.callback ≡ null_callback
      → s.bytes_written + length (bs ++ cs) < 2 ^ 64
      → Q s.errmsg s.max_size
      → (f >> g) s ≡ ok tt (measured (bs ++ cs) s)
  seq_sizes s c h e =
      let room : s.bytes_written + length bs + length cs < 2 ^ 64 =
        omega (arith, length-append bs cs) in
      rw (hf.sizes s c (omega arith) e, hg.sizes (measured bs s) c room e)
        (ground (arith, length-append bs cs))

  seq_writes :
      (s : OStream)
      → s.callback ≡ buf_write_callback
      → s.bytes_written + length (bs ++ cs) ≤ s.max_size
      → s.max_size < 2 ^ 64
      → Q s.errmsg s.max_size
      → (f >> g) s ≡ ok tt (stored (bs ++ cs) s)
  seq_writes s c h m e =
      let room : s.bytes_written + length bs + length cs ≤ s.max_size =
        omega (arith, length-append bs cs) in
      rw (hf.writes s c (omega arith) m e, hg.writes (stored bs s) c room m e)
        (ground (arith, length-append bs cs, append_assoc s.state bs cs))

  seq_overflows :
      (s : OStream)
      → s.callback ≡ buf_write_callback
      → s.bytes_written ≤ s.max_size
      → s.max_size < s.bytes_written + length (bs ++ cs)
      → s.max_size < 2 ^ 64
      → length (bs ++ cs) < 2 ^ 64
      → Q s.errmsg s.max_size
      → IsFull (bs ++ cs) s ((f >> g) s)
  seq_overflows s c h o m l e = elim (dec_lt s.max_size (s.bytes_written + length bs)) [
    | yes over ↦ first (hf.overflows s c h over m (omega (arith, length-append bs cs)) e)
    | no fits ↦ second (omega arith)
  ]
    where
      first : IsFull bs s (f s) → IsFull (bs ++ cs) s ((f >> g) s)
      first q = record {
        after = q.after;
        front = q.front;
        back = q.back ++ cs;
        splits = rw (q.splits, append_assoc) refl;
        result = rw q.result refl;
        message = q.message;
        stored_front = q.stored_front;
        counted = q.counted;
        within = q.within;
      }

      second : s.bytes_written + length bs ≤ s.max_size → IsFull (bs ++ cs) s ((f >> g) s)
      second fits =
          let q =
            hg.overflows (stored bs s) c fits (omega (arith, length-append bs cs)) m
              (omega (arith, length-append bs cs)) e in
          record {
            after = q.after;
            front = bs ++ q.front;
            back = q.back;
            splits = ap (λ t. bs ++ t) q.splits ∙ sym (append_assoc bs q.front q.back);
            result = rw (hf.writes s c fits m e) q.result;
            message = q.message;
            stored_front = q.stored_front ∙ append_assoc s.state bs q.front;
            counted = omega (arith, q.counted, length-append bs q.front);
            within = omega (arith, q.within, length-append bs q.front);
          }

  -- Two encoders one after the other emit the two lists one after the other.
  pub seq-Emits : EmitsFrom Q (f >> g) (bs ++ cs)
  seq-Emits = record { sizes = seq_sizes; writes = seq_writes; overflows = seq_overflows }
