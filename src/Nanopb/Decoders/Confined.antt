-- ===== src/Nanopb/Decoders/Confined.antt =====
-- What it means that a field decoder is confined to its field, and how that composes.
use app_card.Base.{
  ℕ, zero, suc, ◌+◌, ◌≤◌, ◌<◌, ◌≡◌, refl, ◌⊎◌, Bool, true, false, List, [], ◌∷◌, length, arith, Run,
  ok, failed, fault, stuck, and_then, if◌then◌else◌,
}
use app_card.Nanopb.Pb.{ErrMsg}
use app_card.Nanopb.Memory.{Memory, set_byte, store_bytes, clear}
use app_card.Nanopb.IStream.{IStream}
use app_card.Nanopb.IStream.Safety.{Follows, Settled}
use app_card.Nanopb.Decoders.{Input, FieldDecoder, on_stream, return_error}

-- `m'` is `m` after writes of single bytes to the `n` addresses from `dest` on.
pub data Within (dest n : ℕ) (m : Memory) : Memory → Type 0 where
  same : Within dest n m m
  write_byte :
      (m' : Memory) (a b : ℕ)
      → dest ≤ a
      → a < dest + n
      → Within dest n m m'
      → Within dest n m (set_byte m' a b)

-- Such writes leave all other bytes as they were.
pub Within-outside :
    (dest n : ℕ) (m m' : Memory) (x : ℕ)
    → Within dest n m m'
    → (x < dest) ⊎ (dest + n ≤ x)
    → m' x ≡ m x
Within-outside dest n m _ x same out = refl
Within-outside dest n m _ x (write_byte m' a b lo hi w) out =
    ground (arith, Within-outside dest n m m' x w out)

pub store_bytes-Within :
    (dest n : ℕ) (m m' : Memory) (bs : List ℕ) (a : ℕ)
    → dest ≤ a
    → a + length bs ≤ dest + n
    → Within dest n m m'
    → Within dest n m (store_bytes bs m' a)
unfolding store_bytes
store_bytes-Within dest n m m' [] a lo hi w = w
store_bytes-Within dest n m m' (b ∷ bs) a lo hi w =
    store_bytes-Within dest n m (set_byte m' a b) bs (a + 1) (omega arith) (omega arith)
      (write_byte m' a b lo (omega arith) w)

pub clear-Within :
    (dest n : ℕ) (m m' : Memory) (k a : ℕ)
    → dest ≤ a
    → a + k ≤ dest + n
    → Within dest n m m'
    → Within dest n m (clear k m' a)
unfolding clear
clear-Within dest n m m' zero a lo hi w = w
clear-Within dest n m m' (suc k) a lo hi w =
    clear-Within dest n m (set_byte m' a 0) k (a + 1) (omega arith) (omega arith)
      (write_byte m' a 0 lo (omega arith) w)

-- A return, with success or failure, with the stream advanced and only the field written to.
abbrev pub Confined : ℕ → ℕ → Input → Run Input (Unit {0}) (Unit {0}) → Type 0
Confined dest n s (ok a t) = Follows s.stream t.stream × Within dest n s.memory t.memory
Confined dest n s (failed e t) = Follows s.stream t.stream × Within dest n s.memory t.memory
Confined dest n s fault = ⊥
Confined dest n s stuck = ⊥

abbrev pub at : IStream → Memory → Input
at t m = record { stream = t; memory = m }

pub Confined-lift :
    (A : Type 0) (dest n : ℕ) (s : Input) (m : Memory) (r : Run IStream (Unit {0}) A)
    (k : A → FieldDecoder)
    → Settled s.stream r
    → Within dest n s.memory m
    → ((a : A) (t : IStream) → Follows s.stream t → r ≡ ok a t → Confined dest n s (k a (at t m)))
    → Confined dest n s (and_then (on_stream m r) k)
Confined-lift A dest n s m (ok a t) k h w hk = hk a t h refl
Confined-lift A dest n s m (failed e t) k h w hk = (h, w)
Confined-lift A dest n s m fault k h w hk = h
Confined-lift A dest n s m stuck k h w hk = h

pub Confined-if :
    (dest n : ℕ) (s t : Input) (b : Bool) (x y : FieldDecoder)
    → (b ≡ true → Confined dest n s (x t))
    → (b ≡ false → Confined dest n s (y t))
    → Confined dest n s ((if b then x else y) t)
Confined-if dest n s t true x y hx hy = hx refl
Confined-if dest n s t false x y hx hy = hy refl

pub Confined-error :
    (dest n : ℕ) (s : Input) (t : IStream) (msg : ErrMsg)
    → Follows s.stream t
    → Confined dest n s (return_error msg (at t s.memory))
Confined-error dest n s t msg f = (
  record { used = f.used; callback = f.callback; state = f.state; bytes_left = f.bytes_left },
  same,
)
