-- ===== src/Nanopb/Memory/Fills.antt =====
-- Which bytes a store changes, and what they are then.
use app_card.Base.{
  ℕ, zero, suc, ◌+◌, ◌-◌, ◌≤◌, ◌<◌, ◌≡◌, ◌∙◌, refl, ◌⊎◌, inl, inr, List, [], ◌∷◌, arith, length,
}
use native.Mathlib.Decide.{dec_lt}
use app_card.Nanopb.Memory.{Memory, load_bytes, set_byte, store_bytes, le_bytes, store, clear}
use app_card.Nanopb.Memory.Laws.{length-le_bytes, length-load_bytes}

-- Nothing has changed but from `a` up to `b`.
abbrev pub Outside : ℕ → ℕ → Memory → Memory → Type 0
Outside a b m m' = (x : ℕ) → (x < a) ⊎ (b ≤ x) → m' x ≡ m x

abbrev pub IsZero : ℕ → ℕ → Memory → Type 0
IsZero n a m = (i : ℕ) → i < n → m (a + i) ≡ 0

pub Outside-wider :
    (a b a' b' : ℕ) (m m' : Memory) → a' ≤ a → b ≤ b' → Outside a b m m' → Outside a' b' m m'
Outside-wider a b a' b' m m' lo hi o x (inl h) = o x (inl (omega (arith, h)))
Outside-wider a b a' b' m m' lo hi o x (inr h) = o x (inr (omega (arith, h)))

pub Outside-trans :
    (a b : ℕ) (m m' m'' : Memory) → Outside a b m m' → Outside a b m' m'' → Outside a b m m''
Outside-trans a b m m' m'' o o' x h = o' x h ∙ o x h

store_bytes-Outside :
    (bs : List ℕ) (m : Memory) (a : ℕ) → Outside a (a + length bs) m (store_bytes bs m a)
unfolding store_bytes
store_bytes-Outside [] m a x h = refl
store_bytes-Outside (b ∷ bs) m a x (inl h) =
    ground (arith, store_bytes-Outside bs (set_byte m a b) (a + 1) x (inl (omega (arith, h))))
store_bytes-Outside (b ∷ bs) m a x (inr h) =
    ground (arith, store_bytes-Outside bs (set_byte m a b) (a + 1) x (inr (omega (arith, h))))

pub store-Outside : (n v : ℕ) (m : Memory) (a : ℕ) → Outside a (a + n) m (store n v m a)
unfolding store
store-Outside n v m a x (inl h) = store_bytes-Outside (le_bytes n v) m a x (inl h)
store-Outside n v m a x (inr h) =
    store_bytes-Outside (le_bytes n v) m a x (inr (omega (arith, h, length-le_bytes n v)))

pub store-IsZero : (n : ℕ) (m : Memory) (a : ℕ) → IsZero n a (store n 0 m a)
unfolding store store_bytes le_bytes
store-IsZero zero m a i h = absurd (omega (arith, h))
store-IsZero (suc n) m a i h = elim (dec_lt 0 i) [
  | yes pos ↦
      let index : a + i ≡ a + 1 + (i - 1) = omega (arith, pos) in
      rw index (store-IsZero n (set_byte m a 0) (a + 1) (i - 1) (omega (arith, h, pos)))
  | no none ↦
      store_bytes-Outside (le_bytes n 0) (set_byte m a 0) (a + 1) (a + i)
        (inl (omega (arith, none)))
      ∙ ground (arith, none)
]

pub clear-Outside : (n : ℕ) (m : Memory) (a : ℕ) → Outside a (a + n) m (clear n m a)
unfolding clear
clear-Outside zero m a x h = refl
clear-Outside (suc n) m a x (inl h) =
    ground (arith, clear-Outside n (set_byte m a 0) (a + 1) x (inl (omega (arith, h))))
clear-Outside (suc n) m a x (inr h) =
    ground (arith, clear-Outside n (set_byte m a 0) (a + 1) x (inr (omega (arith, h))))

pub clear-IsZero : (n : ℕ) (m : Memory) (a : ℕ) → IsZero n a (clear n m a)
unfolding clear
clear-IsZero zero m a i h = absurd (omega (arith, h))
clear-IsZero (suc n) m a i h = elim (dec_lt 0 i) [
  | yes pos ↦
      let index : a + i ≡ a + 1 + (i - 1) = omega (arith, pos) in
      rw index (clear-IsZero n (set_byte m a 0) (a + 1) (i - 1) (omega (arith, h, pos)))
  | no none ↦
      clear-Outside n (set_byte m a 0) (a + 1) (a + i) (inl (omega (arith, none)))
      ∙ ground (arith, none)
]

-- A copy of `n` bytes of `m'`.
pub copy-Outside :
    (n : ℕ) (m m' : Memory) (p a : ℕ) → Outside a (a + n) m (store_bytes (load_bytes n m' p) m a)
copy-Outside n m m' p a x (inl h) = store_bytes-Outside (load_bytes n m' p) m a x (inl h)
copy-Outside n m m' p a x (inr h) =
    store_bytes-Outside (load_bytes n m' p) m a x (inr (omega (arith, h, length-load_bytes n m' p)))

pub copied_byte :
    (n : ℕ) (m m' : Memory) (p a i : ℕ)
    → i < n
    → store_bytes (load_bytes n m' p) m a (a + i) ≡ m' (p + i)
unfolding store_bytes load_bytes
copied_byte zero m m' p a i h = absurd (omega (arith, h))
copied_byte (suc n) m m' p a i h = elim (dec_lt 0 i) [
  | yes pos ↦
      let index : a + i ≡ a + 1 + (i - 1) = omega (arith, pos) in
      let source : p + i ≡ p + 1 + (i - 1) = omega (arith, pos) in
      rw (index, source)
        (copied_byte n (set_byte m a (m' p)) m' (p + 1) (a + 1) (i - 1) (omega (arith, h, pos)))
  | no none ↦
      store_bytes-Outside (load_bytes n m' (p + 1)) (set_byte m a (m' p)) (a + 1) (a + i)
        (inl (omega (arith, none)))
      ∙ ground (arith, none)
]

-- Bytes of 0 are not changed by more of them.
pub IsZero-store : (n k : ℕ) (m : Memory) (a p : ℕ) → IsZero n a m → IsZero n a (store k 0 m p)
IsZero-store n k m a p cleared i h = elim (dec_lt (a + i) p) [
  | yes front ↦ store-Outside k 0 m p (a + i) (inl front) ∙ cleared i h
  | no from ↦ elim (dec_lt (a + i) (p + k)) [
    | yes inside ↦
        let index : a + i ≡ p + (a + i - p) = omega (arith, from) in
        rw index (store-IsZero k m p (a + i - p) (omega (arith, from, inside)))
    | no behind ↦ store-Outside k 0 m p (a + i) (inr (omega (arith, behind))) ∙ cleared i h
  ]
]
