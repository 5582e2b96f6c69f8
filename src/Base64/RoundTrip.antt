-- ===== src/Base64/RoundTrip.antt =====
-- `f_b64_pton` reads back what `f_b64_ntop` wrote.
use app_card.Base.{
  ℕ, ◌+◌, ◌*◌, ◌/◌, ◌%◌, ◌^◌, ◌<◌, ◌≡◌, refl, true, some, List, [], ◌∷◌, ◌++◌, length, arith, All,
}
use app_card.Nanopb.Memory.{Memory, store_bytes, load_bytes}
use app_card.Nanopb.Memory.Laws.{load_bytes-store_bytes_front}
use app_card.Base64.{pad64, pton_loop, after_loop, f_b64_pton, skip_spaces, all_spaces, isspace}
use app_card.Base64.Encode.{IsByte, encoding, sextet, group}
use app_card.Base64.Digits.{at, loop2, loop3, loop4}

-- The bytes that the sextets of a group are put together to.
regroup :
    (a b c : ℕ)
    → a < 256
    → b < 256
    → c < 256
    → (sextet 3 (group a b c) * 4 + sextet 2 (group a b c) / 16 ≡ a)
      × (sextet 2 (group a b c) % 16 * 16 + sextet 1 (group a b c) / 4 ≡ b)
      × (sextet 1 (group a b c) % 4 * 64 + sextet 0 (group a b c) ≡ c)
regroup a b c ha hb hc = (omega arith, omega arith, omega arith)

-- The spare bits behind an incomplete group, a byte 0 in the buffer.
spare : List ℕ → List ℕ
spare [] = []
spare (a ∷ []) = 0 ∷ []
spare (a ∷ b ∷ []) = 0 ∷ []
spare (a ∷ b ∷ c ∷ src) = spare src

three_bytes :
    {x y z a b c : ℕ}
    → x ≡ a
    → y ≡ b
    → z ≡ c
    → (i : ℕ) (t : Memory) → store_bytes (x ∷ y ∷ z ∷ []) t i ≡ store_bytes (a ∷ b ∷ c ∷ []) t i
three_bytes e0 e1 e2 i t = rw (e0, e1, e2) refl

two_bytes :
    {x y a b : ℕ}
    → x ≡ a
    → y ≡ b
    → (i : ℕ) (t : Memory) → store_bytes (x ∷ y ∷ []) t i ≡ store_bytes (a ∷ b ∷ []) t i
two_bytes e0 e1 i t = rw (e0, e1) refl

-- The scan behind a whole byte's digits.
decodes1 :
    (targsize : ℕ)
    → targsize < 2 ^ 32
    → (a i : ℕ) (t : Memory) → a < 256
    → i + 1 < targsize
    → after_loop true (pton_loop true targsize (encoding (a ∷ [])) (at i 0 t))
      ≡ some (store_bytes (a ∷ 0 ∷ []) t i, i + 1)
unfolding encoding
decodes1 targsize small a i t ha room =
    rw
      (
        loop2 targsize i t (sextet 3 (group a 0 0)) (sextet 2 (group a 0 0)) 0 0 small (omega arith)
            (omega arith) (omega arith) (omega arith) (pad64 ∷ pad64 ∷ []) room,
        two_bytes regroup_a regroup_0 i t,
      )
      (unfold pton_loop skip_spaces all_spaces isspace store_bytes in ground arith)
  where
    regroup_a : sextet 3 (group a 0 0) * 4 + sextet 2 (group a 0 0) / 16 ≡ a
    regroup_a = omega arith

    regroup_0 : sextet 2 (group a 0 0) % 16 * 16 ≡ 0
    regroup_0 = omega arith

decodes2 :
    (targsize : ℕ)
    → targsize < 2 ^ 32
    → (a b i : ℕ) (t : Memory) → a < 256
    → b < 256
    → i + 2 < targsize
    → after_loop true (pton_loop true targsize (encoding (a ∷ b ∷ [])) (at i 0 t))
      ≡ some (store_bytes (a ∷ b ∷ 0 ∷ []) t i, i + 2)
unfolding encoding
decodes2 targsize small a b i t ha hb room =
    rw
      (
        loop3 targsize i t (sextet 3 (group a b 0)) (sextet 2 (group a b 0))
            (sextet 1 (group a b 0)) 0 small (omega arith) (omega arith) (omega arith) (omega arith)
            (pad64 ∷ []) (omega arith),
        three_bytes regroup_a regroup_b regroup_0 i t,
      )
      (unfold pton_loop skip_spaces all_spaces isspace store_bytes in ground arith)
  where
    regroup_a : sextet 3 (group a b 0) * 4 + sextet 2 (group a b 0) / 16 ≡ a
    regroup_a = omega arith

    regroup_b : sextet 2 (group a b 0) % 16 * 16 + sextet 1 (group a b 0) / 4 ≡ b
    regroup_b = omega arith

    regroup_0 : sextet 1 (group a b 0) % 4 * 64 ≡ 0
    regroup_0 = omega arith

-- A whole group, with the rest of the loop to come.
decodes3 :
    (targsize : ℕ)
    → targsize < 2 ^ 32
    → (a b c i : ℕ) (src : List ℕ) (t : Memory) → a < 256
    → b < 256
    → c < 256
    → i + 3 < targsize
    → pton_loop true targsize (encoding (a ∷ b ∷ c ∷ src)) (at i 0 t)
      ≡ pton_loop true targsize (encoding src) (at (i + 3) 0 (store_bytes (a ∷ b ∷ c ∷ []) t i))
unfolding encoding
decodes3 targsize small a b c i src t ha hb hc room =
    let (e0, e1, e2) = regroup a b c ha hb hc in
    rw
      (
        loop4 targsize i t (sextet 3 (group a b c)) (sextet 2 (group a b c))
            (sextet 1 (group a b c)) (sextet 0 (group a b c)) small (omega arith) (omega arith)
            (omega arith) (omega arith) (encoding src) (omega arith),
        three_bytes e0 e1 e2 i t,
      )
      refl

decodes :
    (targsize : ℕ)
    → targsize < 2 ^ 32
    → (src : List ℕ) (i : ℕ) (t : Memory) → All IsByte src
    → i + length src < targsize
    → after_loop true (pton_loop true targsize (encoding src) (at i 0 t))
      ≡ some (store_bytes (src ++ spare src) t i, i + length src)
unfolding spare store_bytes
decodes targsize small [] i t h room = unfold encoding pton_loop in ground arith
decodes targsize small (a ∷ []) i t h room = decodes1 targsize small a i t h.0 room
decodes targsize small (a ∷ b ∷ []) i t h room = decodes2 targsize small a b i t h.0 (h.1).0 room
decodes targsize small (a ∷ b ∷ c ∷ src) i t h room =
    rw
      (
        decodes3 targsize small a b c i src t h.0 (h.1).0 ((h.1).1).0 (omega arith),
        decodes targsize small src (i + 3) (store_bytes (a ∷ b ∷ c ∷ []) t i) ((h.1).1).1
            (omega arith),
      )
      (ground arith)

-- From the base 64 text of any bytes `f_b64_pton`, with a buffer that is longer than they are
-- and shorter than 2 ^ 32, stores those bytes and returns their number.
pub f_b64_pton-encoding :
    (src : List ℕ) (targsize : ℕ) (t : Memory)
    → All IsByte src
    → length src < targsize
    → targsize < 2 ^ 32
    → (m : Memory) × (f_b64_pton (encoding src) true t targsize ≡ some (m, length src))
      × (load_bytes (length src) m 0 ≡ src)
f_b64_pton-encoding src targsize t h room small = (
  store_bytes (src ++ spare src) t 0,
  unfold f_b64_pton in ground (arith, decodes targsize small src 0 t h (omega arith)),
  load_bytes-store_bytes_front src (spare src) t 0,
)
