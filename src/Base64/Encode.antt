-- ===== src/Base64/Encode.antt =====
-- `f_b64_ntop` against the base 64 encoding of RFC 4648, which cuts 24-bit groups into sextets.
use app_card.Base.{
  ℕ, ◌+◌, ◌*◌, ◌/◌, ◌%◌, ◌^◌, ◌<◌, ◌≡◌, refl, Option, none, some, List, [], ◌∷◌, ◌++◌, append-nil,
  append_assoc, ltb, if◌then◌else◌, length, length-append, arith, All, ap, ◌∙◌,
}
use app_card.Base.Bits.{bit_and_mask}
use app_card.Base64.{
  Text, digit, pad64, output0, output1, output2, output3, terminate, with_room, ntop_loop,
  f_b64_ntop,
}

-- Three bytes as a number of 24 bits, and its sextets, the last being 0.
abbrev pub group : ℕ → ℕ → ℕ → ℕ
group a b c = a * 65536 + b * 256 + c

abbrev pub sextet : ℕ → ℕ → ℕ
sextet k n = n / 2 ^ (6 * k) % 64

unfoldable pub encoding : List ℕ → List ℕ
encoding [] = []
encoding (a ∷ []) =
    digit (sextet 3 (group a 0 0)) ∷ digit (sextet 2 (group a 0 0)) ∷ pad64 ∷ pad64 ∷ []
encoding (a ∷ b ∷ []) =
    digit (sextet 3 (group a b 0))
    ∷ digit (sextet 2 (group a b 0))
    ∷ digit (sextet 1 (group a b 0))
    ∷ pad64
    ∷ []
encoding (a ∷ b ∷ c ∷ src) =
    digit (sextet 3 (group a b c))
    ∷ digit (sextet 2 (group a b c))
    ∷ digit (sextet 1 (group a b c))
    ∷ digit (sextet 0 (group a b c))
    ∷ encoding src

abbrev pub IsByte : ℕ → Type 0
IsByte b = b < 256

-- The code's shifts and masks give the sextets.
pub outputs :
    (a b c : ℕ)
    → a < 256
    → b < 256
    → c < 256
    → (output0 a ≡ sextet 3 (group a b c))
      × (output1 a b ≡ sextet 2 (group a b c))
      × (output2 b c ≡ sextet 1 (group a b c))
      × (output3 c ≡ sextet 0 (group a b c))
outputs a b c ha hb hc = (
  omega arith,
  omega (arith, bit_and_mask 2 a),
  omega (arith, bit_and_mask 4 b),
  omega (arith, bit_and_mask 6 c),
)

-- The text for `chars` behind `target`, if it and a '\0' fit.
abbrev fitted : ℕ → List ℕ → Option Text
fitted targsize text =
    if ltb (length text) targsize
    then some (record { target = text ++ (0 ∷ []); result = length text % 2 ^ 32 })
    else none

terminate_lem : (targsize : ℕ) (text : List ℕ) → terminate targsize text ≡ fitted targsize text
terminate_lem targsize text = ground arith

with_room_lem :
    (targsize : ℕ) (target chars more : List ℕ) (k : List ℕ → Option Text)
    → length chars ≡ 4
    → k (target ++ chars) ≡ fitted targsize (target ++ (chars ++ more))
    → with_room targsize target chars k ≡ fitted targsize (target ++ (chars ++ more))
with_room_lem targsize target chars more k four e =
    ground (arith, length-append target (chars ++ more), length-append chars more)

ntop_loop-encoding :
    (targsize : ℕ) (src target : List ℕ)
    → All IsByte src
    → ntop_loop targsize target src ≡ fitted targsize (target ++ encoding src)
unfolding ntop_loop encoding
ntop_loop-encoding targsize [] target h = rw append-nil (terminate_lem targsize target)
ntop_loop-encoding targsize (a ∷ []) target h =
    let (o0, o1, o2, o3) = outputs a 0 0 h.0 (omega arith) (omega arith) in
    rw (o0, o1)
      (with_room_lem targsize target _ [] (terminate targsize) refl
        (terminate_lem targsize (target ++ _)))
ntop_loop-encoding targsize (a ∷ b ∷ []) target h =
    let (o0, o1, o2, o3) = outputs a b 0 h.0 (h.1).0 (omega arith) in
    rw (o0, o1, o2)
      (with_room_lem targsize target _ [] (terminate targsize) refl
        (terminate_lem targsize (target ++ _)))
ntop_loop-encoding targsize (a ∷ b ∷ c ∷ src) target h =
    let (ha, hb, hc, hs) = bytes3 h in
    let (o0, o1, o2, o3) = outputs a b c ha hb hc in
    let four : List ℕ =
      digit (sextet 3 (group a b c))
      ∷ digit (sextet 2 (group a b c))
      ∷ digit (sextet 1 (group a b c))
      ∷ digit (sextet 0 (group a b c))
      ∷ [] in
    rw (o0, o1, o2, o3)
      (with_room_lem targsize target four (encoding src) (λ t. ntop_loop targsize t src) refl
        (ntop_loop-encoding targsize src (target ++ four) hs
          ∙ ap (fitted targsize) (append_assoc target four (encoding src))))
  where
    bytes3 : All IsByte (a ∷ b ∷ c ∷ src) → (a < 256) × (b < 256) × (c < 256) × All IsByte src
    bytes3 (ha, (hb, (hc, hs))) = (ha, hb, hc, hs)

-- On any bytes `f_b64_ntop` writes the base 64 text of RFC 4648 and a '\0' and returns the text's
-- length, as a 32-bit pattern, if the text and the '\0' fit the buffer, and returns -1 if not.
pub f_b64_ntop-encoding :
    (src : List ℕ) (targsize : ℕ)
    → All IsByte src
    → f_b64_ntop src targsize ≡ (
        if ltb (length (encoding src)) targsize
        then some
            (record { target = encoding src ++ (0 ∷ []); result = length (encoding src) % 2 ^ 32 })
        else none)
unfolding f_b64_ntop
f_b64_ntop-encoding src targsize h = ntop_loop-encoding targsize src [] h

-- Four characters for every three bytes, begun or whole.
pub length-encoding : (src : List ℕ) → length (encoding src) ≡ (length src + 2) / 3 * 4
unfolding encoding
length-encoding [] = omega arith
length-encoding (a ∷ []) = omega arith
length-encoding (a ∷ b ∷ []) = omega arith
length-encoding (a ∷ b ∷ c ∷ src) = omega (arith, length-encoding src)
