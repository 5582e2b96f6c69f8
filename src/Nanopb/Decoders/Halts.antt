-- ===== src/Nanopb/Decoders/Halts.antt =====
-- Decoders that return on any bytes of a buffer stream, without an access outside the buffer.
use app_card.Base.{
  ◌≡◌, ◌<◌, arith, refl, Bool, true, false, Run, ok, failed, fault, stuck, Cmd, and_then, ◌>>=◌,
  ◌>>◌, if◌then◌else◌,
}
use app_card.Nanopb.Pb.{ErrMsg}
use app_card.Nanopb.Memory.{Memory}
use app_card.Nanopb.IStream.{IStream, Decoder}
use app_card.Nanopb.IStream.Safety.{
  Follows, Settled, IsReadable, Follows-refl, Follows-trans, with_message,
}
use app_card.Nanopb.IStream.Leaves.{Leaves, Follows-Leaves, Leaves-trans, IsInput, Follows-IsInput}
use app_card.Nanopb.Decoders.{Input, on_stream, lift, write}
use app_card.Nanopb.Runtime.{Effect, on_memory, fail}
use app_card.Nanopb.SetDefaults.Returns.{Returns}

-- A return: with success the stream has lost bytes at its front and the result is as described,
-- and with failure it has lost bytes and may have fewer left to it than there are.
abbrev pub Halts : {E A : Type 0} → (A → Input → Type 0) → IStream → Run Input E A → Type 0
Halts Q s (ok a t) = Follows s t.stream × Q a t
Halts Q s (failed e t) = Leaves s t.stream
Halts Q s fault = ⊥
Halts Q s stuck = ⊥

abbrev pub Safe : {E A : Type 0} → (A → Input → Type 0) → Cmd Input E A → Type 0
Safe Q d = (s : Input) → IsInput s.stream → Halts Q s.stream (d s)

abbrev pub Any : {A : Type 0} → A → Input → Type 0
Any a t = Unit {0}

pub Halts-trans :
    {E A : Type 0} (Q : A → Input → Type 0) {s t : IStream} (r : Run Input E A)
    → Follows s t
    → Halts Q t r
    → Halts Q s r
Halts-trans Q (ok a u) f h = (Follows-trans f h.0, h.1)
Halts-trans Q (failed e u) f h = Leaves-trans (Follows-Leaves f) h
Halts-trans Q fault f h = h
Halts-trans Q stuck f h = h

pub Halts-bind :
    {E A B : Type 0} (P : A → Input → Type 0) (Q : B → Input → Type 0) {s : IStream}
    (r : Run Input E A) (k : A → Cmd Input E B)
    → IsInput s
    → Halts P s r
    → ((a : A) (t : Input)
        → IsInput t.stream
        → Follows s t.stream
        → P a t
        → Halts Q t.stream (k a t))
    → Halts Q s (and_then r k)
Halts-bind P Q (ok a t) k input h next =
    Halts-trans Q (k a t) h.0 (next a t (Follows-IsInput h.0 input) h.0 h.1)
Halts-bind P Q (failed e t) k input h next = h
Halts-bind P Q fault k input h next = h
Halts-bind P Q stuck k input h next = h

pub Safe-bind :
    {E A B : Type 0} (Q : B → Input → Type 0) (d : Cmd Input E A) (k : A → Cmd Input E B)
    → Safe Any d
    → ((a : A) → Safe Q (k a))
    → Safe Q (d >>= k)
Safe-bind Q d k h next s input =
    Halts-bind Any Q (d s) k input (h s input) λ a t input' f any. next a t input'

pub Safe-then :
    {E A B : Type 0} (Q : B → Input → Type 0) (d : Cmd Input E A) (e : Cmd Input E B)
    → Safe Any d
    → Safe Q e
    → Safe Q (d >> e)
Safe-then Q d e h h' = Safe-bind Q d (λ _. e) h λ a. h'

pub Halts-if :
    {E A : Type 0} (Q : A → Input → Type 0) (s : Input) (b : Bool) (x y : Cmd Input E A)
    → (b ≡ true → Halts Q s.stream (x s))
    → (b ≡ false → Halts Q s.stream (y s))
    → Halts Q s.stream ((if b then x else y) s)
Halts-if Q s true x y h h' = h refl
Halts-if Q s false x y h h' = h' refl

pub Halts-if_run :
    {E A : Type 0} (Q : A → Input → Type 0) (s : IStream) (b : Bool) (x y : Run Input E A)
    → (b ≡ true → Halts Q s x)
    → (b ≡ false → Halts Q s y)
    → Halts Q s (if b then x else y)
Halts-if_run Q s true x y h h' = h refl
Halts-if_run Q s false x y h h' = h' refl

pub Safe-if :
    {E A : Type 0} (Q : A → Input → Type 0) (b : Bool) (x y : Cmd Input E A)
    → (b ≡ true → Safe Q x)
    → (b ≡ false → Safe Q y)
    → Safe Q (if b then x else y)
Safe-if Q true x y h h' = h refl
Safe-if Q false x y h h' = h' refl

pub Safe-write : (f : Memory → Memory) → Safe Any (write f)
Safe-write f s input = (Follows-refl s.stream, tt)

pub Safe-fail : {A : Type 0} (Q : A → Input → Type 0) (msg : ErrMsg) → Safe Q (fail msg)
Safe-fail Q msg s input = Follows-Leaves (with_message s.stream)

pub Safe-error : (msg : ErrMsg) → Safe (Any {A = Unit {0}}) (fail msg)
Safe-error msg = Safe-fail {A = Unit {0}} Any msg

pub on_memory-Safe : (e : Effect) → Returns e → Safe Any (on_memory e)
on_memory-Safe e h s input =
    let (m', returned) = h s.memory in rw returned (Follows-refl s.stream, tt)

pub on_stream-Halts :
    {A : Type 0} (m : Memory) (s : IStream) (r : Run IStream (Unit {0}) A)
    → Settled s r
    → Halts Any s (on_stream m r)
on_stream-Halts m s (ok a t) h = (h, tt)
on_stream-Halts m s (failed e t) h = Follows-Leaves h
on_stream-Halts m s fault h = h
on_stream-Halts m s stuck h = h

pub lift-Safe :
    {A : Type 0} (d : Decoder A)
    → ((s : IStream) → IsReadable s → Settled s (d s))
    → Safe Any (lift d)
lift-Safe d h s input = on_stream-Halts s.memory s.stream (d s.stream) (h s.stream input.readable)

-- With success at least a byte is taken.
abbrev pub Advances : {E A : Type 0} → IStream → Run Input E A → Type 0
Advances s r = Halts (λ v t. t.stream.bytes_left < s.bytes_left) s r

pub Advances-Halts : {E A : Type 0} (s : IStream) (r : Run Input E A) → Advances s r → Halts Any s r
Advances-Halts s (ok a t) h = (h.0, tt)
Advances-Halts s (failed e t) h = h
Advances-Halts s fault h = h
Advances-Halts s stuck h = h

Advances-trans :
    {E A : Type 0} {s t : IStream} (r : Run Input E A) → Follows s t → Advances t r → Advances s r
Advances-trans (ok a u) f h = (Follows-trans f h.0, omega (arith, f.bytes_left, h.1))
Advances-trans (failed e u) f h = Leaves-trans (Follows-Leaves f) h
Advances-trans fault f h = h
Advances-trans stuck f h = h

-- What follows advances.
pub Halts-Advances :
    {E A B : Type 0} {s : IStream} (r : Run Input E A) (k : A → Cmd Input E B)
    → IsInput s
    → Halts Any s r
    → ((a : A) (t : Input) → IsInput t.stream → Advances t.stream (k a t))
    → Advances s (and_then r k)
Halts-Advances (ok a t) k input h next =
    Advances-trans (k a t) h.0 (next a t (Follows-IsInput h.0 input))
Halts-Advances (failed e t) k input h next = h
Halts-Advances fault k input h next = h
Halts-Advances stuck k input h next = h

-- What follows does not give the byte back.
pub Advances-Safe :
    {E A B : Type 0} {s : IStream} (r : Run Input E A) (k : A → Cmd Input E B)
    → IsInput s
    → Advances s r
    → ((a : A) → Safe Any (k a))
    → Advances s (and_then r k)
Advances-Safe {E = E} {B = B} {s = s} r k input h next =
    Halts-bind (λ v t. t.stream.bytes_left < s.bytes_left)
      (λ v t. t.stream.bytes_left < s.bytes_left) r k input h
      λ a t input' f less. kept t.stream (k a t) less (next a t input')
  where
    kept :
        (t : IStream) (r' : Run Input E B)
        → t.bytes_left < s.bytes_left
        → Halts Any t r'
        → Halts (λ v u. u.stream.bytes_left < s.bytes_left) t r'
    kept t (ok a u) less h = (h.0, omega (arith, h.0.bytes_left, less))
    kept t (failed e u) less h = h
    kept t fault less h = h
    kept t stuck less h = h
