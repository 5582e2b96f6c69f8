-- ===== src/Base64.antt =====
-- fbase64.c of the Firebase database's SocketRocket: `f_b64_ntop` writes base 64 and `f_b64_pton`
-- reads it. A C string is the list of its characters before the '\0'.
pub mod Encode
pub mod Digits
pub mod RoundTrip
use Prim.Native.Char.{code}
use Prim.Native.String
use Prim.Native.String.{String}
use app_card.Base.{
  ℕ, zero, suc, ◌+◌, ◌-◌, ◌*◌, ◌/◌, ◌%◌, ◌^◌, Bool, true, false, not, ◌&&◌, ◌||◌, Option, none,
  some, List, [], ◌∷◌, ◌++◌, ◌==◌, ltb, leb, if◌then◌else◌, length, bit_and, bit_or,
}
use app_card.Nanopb.Memory.{Memory, set_byte}

abbrev codes : String → List ℕ
codes String.[] = []
codes (String.◌∷◌ c s) = code c ∷ codes s

abbrev pub base64 : List ℕ
base64 = codes "ABCDEFGHIJKLMNOPQRSTUVWXYZabcdefghijklmnopqrstuvwxyz0123456789+/"

abbrev pub pad64 : ℕ
pad64 = b'='

-- `Base64[i]`; the '\0' behind the last digit is at 64.
abbrev pub nth_char : List ℕ → ℕ → ℕ
nth_char [] i = 0
nth_char (c ∷ cs) zero = c
nth_char (c ∷ cs) (suc i) = nth_char cs i

unfoldable pub digit : ℕ → ℕ
digit i = nth_char base64 i

-- `output[0]` to `output[3]`, each a u_char.
abbrev pub output0 : ℕ → ℕ
output0 a = a / 2 ^ 2

abbrev pub output1 : ℕ → ℕ → ℕ
output1 a b = (bit_and a 0x03 * 2 ^ 4 + b / 2 ^ 4) % 2 ^ 8

abbrev pub output2 : ℕ → ℕ → ℕ
output2 b c = (bit_and b 0x0f * 2 ^ 2 + c / 2 ^ 6) % 2 ^ 8

abbrev pub output3 : ℕ → ℕ
output3 c = bit_and c 0x3f

-- What `f_b64_ntop` stored, the '\0' included, and the int that it returned, as a bit pattern.
pub record Text : Type 0 where
  pub target : List ℕ
  pub result : ℕ

-- From the check of `datalength >= targsize` on.
abbrev pub terminate : ℕ → List ℕ → Option Text
terminate targsize target =
    if leb targsize (length target)
    then none
    else some (record { target = target ++ (0 ∷ []); result = length target % 2 ^ 32 })

-- Four characters and the code after them, if there is room for the four.
abbrev pub with_room : ℕ → List ℕ → List ℕ → (List ℕ → Option Text) → Option Text
with_room targsize target chars k =
    if ltb targsize (length target + 4) then none else k (target ++ chars)

-- The loop, and the padding of what is left; `target` holds the `datalength` characters so far.
-- `none` is the -1.
unfoldable pub ntop_loop : ℕ → List ℕ → List ℕ → Option Text
ntop_loop targsize target [] = terminate targsize target
ntop_loop targsize target (a ∷ []) =
    with_room targsize target (digit (output0 a) ∷ digit (output1 a 0) ∷ pad64 ∷ pad64 ∷ [])
      (terminate targsize)
ntop_loop targsize target (a ∷ b ∷ []) =
    with_room targsize target
      (digit (output0 a) ∷ digit (output1 a b) ∷ digit (output2 b 0) ∷ pad64 ∷ [])
      (terminate targsize)
ntop_loop targsize target (a ∷ b ∷ c ∷ src) =
    with_room targsize target
      (digit (output0 a) ∷ digit (output1 a b) ∷ digit (output2 b c) ∷ digit (output3 c) ∷ [])
      (λ target'. ntop_loop targsize target' src)

unfoldable pub f_b64_ntop : List ℕ → ℕ → Option Text
unfolding ntop_loop digit
f_b64_ntop src targsize = ntop_loop targsize [] src

-- `isspace` in the C locale.
unfoldable pub isspace : ℕ → Bool
isspace c = c == 0x20 || leb 0x09 c && leb c 0x0d

abbrev pub suc_option : Option ℕ → Option ℕ
suc_option none = none
suc_option (some i) = some (suc i)

-- `strchr(Base64, ch)`, as the offset of what it finds.
unfoldable pub find_char : List ℕ → ℕ → Option ℕ
find_char [] ch = none
find_char (c ∷ cs) ch = if c == ch then some 0 else suc_option (find_char cs ch)

-- The variables of `f_b64_pton`; `target` is the buffer, an address from 0 on for each byte.
pub record Pton : Type 0 where
  pub tarindex : ℕ
  pub state : ℕ
  pub target : Memory

-- A u_int.
abbrev pub u32 : ℕ → ℕ
u32 n = n % 2 ^ 32

-- One case of the switch: the check, the stores (for a target that is not NULL), and the rest.
abbrev pub store_digit : Bool → Bool → (Memory → Memory) → Pton → Option Pton
store_digit has_target too_far stores p =
    if has_target
    then (if too_far then none else some (record p { target = stores p.target }))
    else some p

abbrev pub or_byte : ℕ → ℕ → Memory → Memory
or_byte i x t = set_byte t i (bit_or (t i) x % 2 ^ 8)

abbrev pub go_to : ℕ → ℕ → Option Pton → Option Pton
go_to tarindex state none = none
go_to tarindex state (some p) = some (record p { tarindex = tarindex; state = state })

-- The switch on `state`, with the digit's value `pos`. `none` is the -1.
unfoldable pub pton_digit : Bool → ℕ → ℕ → Pton → Option Pton
pton_digit has_target targsize pos p =
    let i = p.tarindex in
    let next = u32 (p.tarindex + 1) in
    if p.state == 0
    then go_to i 1
        (store_digit has_target (leb targsize i) (λ t. set_byte t i (pos * 2 ^ 2 % 2 ^ 8)) p)
    else if p.state == 1
    then go_to next 2 (
        store_digit has_target (leb targsize next)
          (λ t. set_byte (or_byte i (pos / 2 ^ 4) t) next (bit_and pos 0x0f * 2 ^ 4 % 2 ^ 8)) p)
    else if p.state == 2
    then go_to next 3 (
        store_digit has_target (leb targsize next)
          (λ t. set_byte (or_byte i (pos / 2 ^ 2) t) next (bit_and pos 0x03 * 2 ^ 6 % 2 ^ 8)) p)
    else go_to next 0 (store_digit has_target (leb targsize i) (or_byte i pos) p)

-- How the loop is left: with -1, at the '\0', or at a '=' with the characters behind it.
pub data Scan : Type 0 where
  invalid : Scan
  at_end : Pton → Scan
  at_pad : Pton → List ℕ → Scan

abbrev pub or_invalid : {A : Type 0} → Option A → (A → Scan) → Scan
or_invalid none k = invalid
or_invalid (some a) k = k a

unfoldable pub pton_loop : Bool → ℕ → List ℕ → Pton → Scan
pton_loop has_target targsize [] p = at_end p
pton_loop has_target targsize (ch ∷ src) p =
    (if isspace ch
        then pton_loop has_target targsize src
        else if ch == pad64
        then (λ q. at_pad q src)
        else (λ q. or_invalid (find_char base64 ch) λ pos.
            or_invalid (pton_digit has_target targsize pos q) (pton_loop has_target targsize src)))
      p

unfoldable pub skip_spaces : List ℕ → List ℕ
skip_spaces [] = []
skip_spaces (ch ∷ src) = if isspace ch then skip_spaces src else ch ∷ src

unfoldable pub all_spaces : List ℕ → Bool
all_spaces [] = true
all_spaces (ch ∷ src) = isspace ch && all_spaces src

-- What was stored, and the number of bytes, which is the int that is returned.
abbrev pub Bytes : Type 0
Bytes = Memory × ℕ

abbrev pub finish : Pton → Option Bytes
finish p = some (p.target, p.tarindex)

-- Case 3 of the switch behind a '=': only spaces may follow, and the spare bits must be 0.
abbrev pub pad_last : Bool → Pton → List ℕ → Option Bytes
pad_last has_target p src =
    if not (all_spaces src)
    then none
    else if has_target && not (p.target p.tarindex == 0)
    then none
    else finish p

-- Case 2, with the spaces skipped: a second '=' must follow.
abbrev pub pad_second : Bool → Pton → List ℕ → Option Bytes
pad_second has_target p [] = none
pad_second has_target p (ch ∷ src) = if ch == pad64 then pad_last has_target p src else none

abbrev pub after_loop : Bool → Scan → Option Bytes
after_loop has_target invalid = none
after_loop has_target (at_end p) = if p.state == 0 then finish p else none
after_loop has_target (at_pad p src) =
    if p.state == 0 || p.state == 1
    then none
    else if p.state == 2
    then pad_second has_target p (skip_spaces src)
    else pad_last has_target p src

-- `target` is what the buffer held before. `none` is the -1.
unfoldable pub f_b64_pton : List ℕ → Bool → Memory → ℕ → Option Bytes
unfolding pton_loop pton_digit isspace find_char skip_spaces all_spaces
f_b64_pton src has_target target targsize =
    after_loop has_target
      (pton_loop has_target targsize src (record { tarindex = 0; state = 0; target = target }))
