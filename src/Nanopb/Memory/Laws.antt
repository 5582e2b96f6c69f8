-- ===== src/Nanopb/Memory/Laws.antt =====
-- What was stored is what is loaded.
use app_card.Base.{
  ℕ, zero, suc, ◌+◌, ◌*◌, ◌/◌, ◌^◌, ◌≤◌, ◌<◌, ◌≡◌, refl, ap, ◌∙◌, List, [], ◌∷◌, ◌++◌, arith,
  length,
}
use native.Mathlib.Nat.{pow-suc}
use app_card.Nanopb.Memory.{Memory, load_bytes, load, set_byte, store_bytes, le_bytes, store}

-- A store does not reach below its address.
store_bytes_below : (bs : List ℕ) (m : Memory) (a x : ℕ) → x < a → store_bytes bs m a x ≡ m x
unfolding store_bytes
store_bytes_below [] m a x h = refl
store_bytes_below (b ∷ bs) m a x h =
    ground (arith, store_bytes_below bs (set_byte m a b) (a + 1) x (omega arith))

pub load_bytes-store_bytes :
    (bs : List ℕ) (m : Memory) (a : ℕ) → load_bytes (length bs) (store_bytes bs m a) a ≡ bs
unfolding load_bytes store_bytes
load_bytes-store_bytes [] m a = refl
load_bytes-store_bytes (b ∷ bs) m a = ground (
  arith,
  store_bytes_below bs (set_byte m a b) (a + 1) a (omega arith),
  load_bytes-store_bytes bs (set_byte m a b) (a + 1),
)

-- The front of a longer store.
pub load_bytes-store_bytes_front :
    (bs cs : List ℕ) (m : Memory) (a : ℕ)
    → load_bytes (length bs) (store_bytes (bs ++ cs) m a) a ≡ bs
unfolding load_bytes store_bytes
load_bytes-store_bytes_front [] cs m a = refl
load_bytes-store_bytes_front (b ∷ bs) cs m a = ground (
  arith,
  store_bytes_below (bs ++ cs) (set_byte m a b) (a + 1) a (omega arith),
  load_bytes-store_bytes_front bs cs (set_byte m a b) (a + 1),
)

-- The number that the bytes at an address are.
le_number : List ℕ → ℕ
le_number [] = 0
le_number (b ∷ bs) = b + 256 * le_number bs

load_as_bytes : (n : ℕ) (m : Memory) (a : ℕ) → load n m a ≡ le_number (load_bytes n m a)
unfolding load load_bytes le_number
load_as_bytes zero m a = refl
load_as_bytes (suc n) m a = omega (arith, load_as_bytes n m (a + 1))

pub length-le_bytes : (n v : ℕ) → length (le_bytes n v) ≡ n
unfolding le_bytes
length-le_bytes zero v = refl
length-le_bytes (suc n) v = ap suc (length-le_bytes n (v / 256))

le_number-le_bytes : (n v : ℕ) → v < 256 ^ n → le_number (le_bytes n v) ≡ v
unfolding le_number le_bytes
le_number-le_bytes zero v h = omega arith
le_number-le_bytes (suc n) v h =
    omega (arith, le_number-le_bytes n (v / 256) (omega (arith, pow-suc 256 n)))

-- A number that fits `n` bytes is loaded as it was stored.
pub load-store : (n v : ℕ) (m : Memory) (a : ℕ) → v < 256 ^ n → load n (store n v m a) a ≡ v
unfolding store
load-store n v m a h =
    load_as_bytes n (store_bytes (le_bytes n v) m a) a
    ∙ ap le_number (same_length n (length-le_bytes n v))
    ∙ le_number-le_bytes n v h
  where
    same_length :
        (k : ℕ)
        → length (le_bytes n v) ≡ k
        → load_bytes k (store_bytes (le_bytes n v) m a) a ≡ le_bytes n v
    same_length k e = rw (← e) (load_bytes-store_bytes (le_bytes n v) m a)

pub load-lt : (n : ℕ) (m : Memory) (a : ℕ) → ((x : ℕ) → m x < 256) → load n m a < 256 ^ n
unfolding load
load-lt zero m a h = omega arith
load-lt (suc n) m a h = omega (arith, h a, load-lt n m (a + 1) h, pow-suc 256 n)

pub length-load_bytes : (n : ℕ) (m : Memory) (a : ℕ) → length (load_bytes n m a) ≡ n
unfolding load_bytes
length-load_bytes zero m a = refl
length-load_bytes (suc n) m a = ap suc (length-load_bytes n m (a + 1))

-- The bytes of a number decide it.
pub load-same :
    (n : ℕ) (m m' : Memory) (a : ℕ)
    → ((x : ℕ) → a ≤ x → x < a + n → m' x ≡ m x)
    → load n m' a ≡ load n m a
unfolding load
load-same zero m m' a h = refl
load-same (suc n) m m' a h = omega (
  arith,
  h a (omega arith) (omega arith),
  load-same n m m' (a + 1) (λ x lo hi. h x (omega arith) (omega arith)),
)

-- A number is not stored below its address.
pub store-below : (n v : ℕ) (m : Memory) (a x : ℕ) → x < a → store n v m a x ≡ m x
unfolding store
store-below n v m a x h = store_bytes_below (le_bytes n v) m a x h
