-- ===== src/Nanopb/Memory.antt =====
-- The memory that message structures live in: bytes at addresses, numbers in little-endian order
-- (as on every platform that the app is built for).
pub mod Laws
pub mod Fills
use app_card.Base.{
  ℕ, zero, suc, ◌+◌, ◌-◌, ◌*◌, ◌/◌, ◌%◌, ◌^◌, List, [], ◌∷◌, ◌==◌, ltb, if◌then◌else◌,
}

abbrev pub Memory : Type 0
Memory = ℕ → ℕ

-- The `n` bytes at an address, and the number that they are.
unfoldable pub load_bytes : ℕ → Memory → ℕ → List ℕ
load_bytes zero m a = []
load_bytes (suc n) m a = m a ∷ load_bytes n m (a + 1)

unfoldable pub load : ℕ → Memory → ℕ → ℕ
load zero m a = 0
load (suc n) m a = m a + 256 * load n m (a + 1)

abbrev pub set_byte : Memory → ℕ → ℕ → Memory
set_byte m a b x = if x == a then b else m x

unfoldable pub store_bytes : List ℕ → Memory → ℕ → Memory
store_bytes [] m a = m
store_bytes (b ∷ bs) m a = store_bytes bs (set_byte m a b) (a + 1)

-- The `n` lowest bytes of a number.
unfoldable pub le_bytes : ℕ → ℕ → List ℕ
le_bytes zero v = []
le_bytes (suc n) v = v % 256 ∷ le_bytes n (v / 256)

unfoldable pub store : ℕ → ℕ → Memory → ℕ → Memory
store n v m a = store_bytes (le_bytes n v) m a

-- `memset(a, 0, n)`
unfoldable pub clear : ℕ → Memory → ℕ → Memory
clear zero m a = m
clear (suc n) m a = clear n (set_byte m a 0) (a + 1)

-- The conversion of a signed number of `n` bytes to int64_t, on bit patterns.
unfoldable pub sign_extend : ℕ → ℕ → ℕ
sign_extend n v = if ltb v (2 ^ (8 * n - 1)) then v else v + (2 ^ 64 - 2 ^ (8 * n))
