-- ===== src/Base64/Digits.antt =====
-- The loop of `f_b64_pton` on digits of the alphabet: one at a time, and in groups of up to four.
use app_card.Base.{
  ℕ, ◌+◌, ◌*◌, ◌/◌, ◌%◌, ◌^◌, ◌<◌, ◌≡◌, refl, Bool, true, false, Option, none, some, List, [], ◌∷◌,
  ◌==◌, not, arith, bit_and,
}
use mathlib.Core.Path.{fun_ext}
use app_card.Base.Bits.{holds_upto, holds_upto-below, bit_or_below, bit_and_mask}
use app_card.Nanopb.Memory.{Memory, set_byte, store_bytes}
use app_card.Base64.{
  base64, pad64, digit, isspace, find_char, Pton, or_invalid, pton_digit, pton_loop, or_byte, u32,
}

-- What `strchr` finds at a digit, checked over the alphabet.
abbrev finds : ℕ → Option ℕ → Bool
finds i none = false
finds i (some j) = j == i

finds-eq : (i : ℕ) (o : Option ℕ) → finds i o ≡ true → o ≡ some i
finds-eq i none h = ground arith
finds-eq i (some j) h = ground arith

find-digit : (i : ℕ) → i < 64 → find_char base64 (digit i) ≡ some i
find-digit i h =
    finds-eq i _ (holds_upto-below (λ k. finds k (find_char base64 (digit k))) 64 i h table)
  where
    table : holds_upto (λ k. finds k (find_char base64 (digit k))) 64 ≡ true
    table = unfold holds_upto find_char digit in refl

not_space : (i : ℕ) → i < 64 → not (isspace (digit i)) ≡ true
not_space i h = holds_upto-below (λ k. not (isspace (digit k))) 64 i h table
  where
    table : holds_upto (λ k. not (isspace (digit k))) 64 ≡ true
    table = unfold holds_upto isspace digit in refl

not_pad : (i : ℕ) → i < 64 → not (digit i == pad64) ≡ true
not_pad i h = holds_upto-below (λ k. not (digit k == pad64)) 64 i h table
  where
    table : holds_upto (λ k. not (digit k == pad64)) 64 ≡ true
    table = unfold holds_upto digit in refl

-- A digit of the alphabet goes to the switch.
loop-digit :
    (i targsize : ℕ) (src : List ℕ) (p : Pton)
    → i < 64
    → pton_loop true targsize (digit i ∷ src) p
      ≡ or_invalid (pton_digit true targsize i p) (pton_loop true targsize src)
unfolding pton_loop
loop-digit i targsize src p h = ground (arith, find-digit i h, not_space i h, not_pad i h)

abbrev pub at : ℕ → ℕ → Memory → Pton
at i state t = record { tarindex = i; state = state; target = t }

-- The memory after one, two and three digits of a group.
abbrev one : ℕ → ℕ → Memory → Memory
one x0 i t = set_byte t i (x0 * 4)

abbrev pub two : ℕ → ℕ → ℕ → Memory → Memory
two x0 x1 i t = store_bytes ((x0 * 4 + x1 / 16) ∷ (x1 % 16 * 16) ∷ []) t i

abbrev pub three : ℕ → ℕ → ℕ → ℕ → Memory → Memory
three x0 x1 x2 i t =
    store_bytes ((x0 * 4 + x1 / 16) ∷ (x1 % 16 * 16 + x2 / 4) ∷ (x2 % 4 * 64) ∷ []) t i

abbrev pub four : ℕ → ℕ → ℕ → ℕ → ℕ → Memory → Memory
four x0 x1 x2 x3 i t =
    store_bytes ((x0 * 4 + x1 / 16) ∷ (x1 % 16 * 16 + x2 / 4) ∷ (x2 % 4 * 64 + x3) ∷ []) t i

module _ (targsize i : ℕ) (t : Memory) (x0 x1 x2 x3 : ℕ) (small : targsize < 2 ^ 32) (h0 : x0 < 64)
    (h1 : x1 < 64) (h2 : x2 < 64) (h3 : x3 < 64) where
  step0 : i < targsize → pton_digit true targsize x0 (at i 0 t) ≡ some (at i 1 (one x0 i t))
  unfolding pton_digit
  step0 room = ground arith

  next : (j : ℕ) → j < targsize → u32 j ≡ j
  next j room = omega arith

  memory1 :
      set_byte (or_byte i (x1 / 2 ^ 4) (one x0 i t)) (i + 1) (bit_and x1 0x0f * 2 ^ 4 % 2 ^ 8)
      ≡ two x0 x1 i t
  unfolding store_bytes
  memory1 = fun_ext λ x. ground (arith, bit_or_below 2 x0 (x1 / 16), bit_and_mask 4 x1)

  step1 :
      i + 1 < targsize
      → pton_digit true targsize x1 (at i 1 (one x0 i t)) ≡ some (at (i + 1) 2 (two x0 x1 i t))
  unfolding pton_digit
  step1 room = rw (next (i + 1) room) (ground (arith, memory1))

  memory2 :
      set_byte
        (or_byte (i + 1) (x2 / 2 ^ 2) (two x0 x1 i t))
        (i + 1 + 1)
        (bit_and x2 0x03 * 2 ^ 6 % 2 ^ 8)
      ≡ three x0 x1 x2 i t
  unfolding store_bytes
  memory2 = fun_ext λ x. ground (arith, bit_or_below 4 (x1 % 16) (x2 / 4), bit_and_mask 2 x2)

  step2 :
      i + 1 + 1 < targsize
      → pton_digit true targsize x2 (at (i + 1) 2 (two x0 x1 i t))
        ≡ some (at (i + 1 + 1) 3 (three x0 x1 x2 i t))
  unfolding pton_digit
  step2 room = rw (next (i + 1 + 1) room) (ground (arith, memory2))

  memory3 : or_byte (i + 1 + 1) x3 (three x0 x1 x2 i t) ≡ four x0 x1 x2 x3 i t
  unfolding store_bytes
  memory3 = fun_ext λ x. ground (arith, bit_or_below 6 (x2 % 4) x3)

  step3 :
      i + 1 + 1 < targsize
      → pton_digit true targsize x3 (at (i + 1 + 1) 3 (three x0 x1 x2 i t))
        ≡ some (at (i + 3) 0 (four x0 x1 x2 x3 i t))
  unfolding pton_digit
  step3 room = rw (wrap) (ground (arith, memory3))
    where
      wrap : u32 (i + 1 + 1 + 1) ≡ i + 3
      wrap = omega arith

  -- The loop over two digits, over three, and over the four of a whole group.
  pub loop2 :
      (src : List ℕ)
      → i + 1 < targsize
      → pton_loop true targsize (digit x0 ∷ digit x1 ∷ src) (at i 0 t)
        ≡ pton_loop true targsize src (at (i + 1) 2 (two x0 x1 i t))
  loop2 src room = rw (
    loop-digit x0 targsize _ (at i 0 t) h0,
    step0 (omega arith),
    loop-digit x1 targsize src (at i 1 (one x0 i t)) h1,
    step1 room,
  )

  pub loop3 :
      (src : List ℕ)
      → i + 1 + 1 < targsize
      → pton_loop true targsize (digit x0 ∷ digit x1 ∷ digit x2 ∷ src) (at i 0 t)
        ≡ pton_loop true targsize src (at (i + 1 + 1) 3 (three x0 x1 x2 i t))
  loop3 src room = rw (
    loop2 (digit x2 ∷ src) (omega arith),
    loop-digit x2 targsize src (at (i + 1) 2 (two x0 x1 i t)) h2,
    step2 room,
  )

  pub loop4 :
      (src : List ℕ)
      → i + 1 + 1 < targsize
      → pton_loop true targsize (digit x0 ∷ digit x1 ∷ digit x2 ∷ digit x3 ∷ src) (at i 0 t)
        ≡ pton_loop true targsize src (at (i + 3) 0 (four x0 x1 x2 x3 i t))
  loop4 src room = rw (
    loop3 (digit x3 ∷ src) room,
    loop-digit x3 targsize src (at (i + 1 + 1) 3 (three x0 x1 x2 i t)) h3,
    step3 room,
  )
