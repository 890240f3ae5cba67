-- ===== src/Printf/Number.antt =====
-- The conversions d, i, u, o, x, X and p of vprintf: the digits of the value, and their layout.
use pzos.Base.{ℕ, zero, suc, ◌+◌, ◌-◌, ◌/◌, ◌%◌, ◌^◌, max, Bool, true, false, not, ◌&&◌, ◌||◌}
use pzos.Base.{List, [], ◌∷◌, ◌++◌, Option, none, some, ltb, ◌==◌, if◌then◌else◌, length, replicate}
use pzos.Base.Int.{ℤ, pos, negsuc, signed}
use pzos.Printf.Spec.{Spec, Length, int_len, char_len, short_len, double_len, is_zero}
use mathlib.Core.List.{reverse}

-- The value of %d and %i, from the word that va_arg reads.
unfoldable pub int_value : Length → ℕ → ℤ
int_value char_len w = signed 8 w
int_value short_len w = signed 16 w
int_value int_len w = signed 32 w
int_value double_len w = signed 32 w
int_value _ w = signed 64 w

-- The value of the unsigned conversions; with the length L it is never set.
unfoldable pub uint_value : Length → ℕ → Option ℕ
uint_value char_len w = some (w % 2 ^ 8)
uint_value short_len w = some (w % 2 ^ 16)
uint_value int_len w = some (w % 2 ^ 32)
uint_value double_len w = none
uint_value _ w = some (w % 2 ^ 64)

-- A digit as a character; `type` is x or X where a digit can be 10 or more.
unfoldable pub digit_char : ℕ → ℕ → ℕ
digit_char type d = if ltb d 10 then d + b'0' else type - b'X' + b'A' + (d - 10)

-- `while (value > 0)`: what it writes to the buffer, the lowest digit first. A value has 64 bits, so
-- 64 rounds are enough.
unfoldable pub digits_from : ℕ → ℕ → ℕ → ℕ → List ℕ
digits_from zero type base v = []
digits_from (suc n) type base v =
    let rest = digits_from n type base (v / base) in
    if v == 0 then [] else digit_char type (v % base) ∷ rest

unfoldable pub digits : Spec → ℕ → ℕ → ℕ → List ℕ
digits s type base v =
    if v == 0 && not (is_zero s.precision) then b'0' ∷ [] else digits_from 64 type base v

-- `buffer[0 .. len)` and `neg`.
pub record Number : Type 0 where
  pub buffer : List ℕ
  pub neg : Bool

-- The digits of 2 ^ 63, the lowest first.
abbrev pub min_buffer : List ℕ
min_buffer =
    b'8' ∷ b'0' ∷ b'8' ∷ b'5' ∷ b'7' ∷ b'7' ∷ b'4' ∷ b'5' ∷ b'8' ∷ b'6' ∷ b'3' ∷ b'0' ∷ b'2' ∷ b'7'
    ∷ b'3' ∷ b'3' ∷ b'2' ∷ b'2' ∷ b'9' ∷ []

unfoldable pub signed_number : Spec → ℕ → ℤ → Number
signed_number s type (pos n) = record { buffer = digits s type 10 n; neg = false }
signed_number s type (negsuc n) =
    if n == 2 ^ 63 - 1
    then record { buffer = min_buffer; neg = true }
    else record { buffer = digits s type 10 (suc n); neg = true }

abbrev pub is_hex : ℕ → Bool
is_hex type = type == b'x' || type == b'X'

-- `width > n` and `width - n`, for a length n.
abbrev pub above : ℤ → ℕ → Bool
above (pos w) n = ltb n w
above (negsuc w) n = false

abbrev pub excess : ℤ → ℕ → ℕ
excess (pos w) n = w - n
excess (negsuc w) n = 0

-- max(n, width)
abbrev pub at_least : ℤ → ℕ → ℕ
at_least (pos w) n = max n w
at_least (negsuc w) n = n

abbrev pub sign_text : Spec → Bool → List ℕ
sign_text s neg =
    if neg then b'-' ∷ [] else if s.sign then b'+' ∷ [] else if s.space then b' ' ∷ [] else []

abbrev pub prefix_text : Spec → ℕ → List ℕ
prefix_text s type =
    if s.hash && type == b'o'
    then b'0' ∷ []
    else if s.hash && is_hex type
    then b'0' ∷ type ∷ []
    else []

unfoldable pub real_len : Spec → ℕ → Number → ℕ
real_len s type n =
    let len = length n.buffer in
    let digits = at_least s.precision len in
    let signed = if n.neg || (s.sign || s.space) then digits + 1 else digits in
    if s.hash && type == b'o'
    then signed + 1
    else if s.hash && is_hex type
    then signed + 2
    else signed

-- The zeros of the precision, and the buffer from its end.
unfoldable pub digit_text : Spec → Number → List ℕ
digit_text s n = replicate (excess s.precision (length n.buffer)) b'0' ++ reverse n.buffer

-- The `switch` at the end of a conversion. With zeros for padding the sign and the prefix stand before
-- them, and are not printed again.
unfoldable pub layout : Spec → ℕ → Number → List ℕ
layout s type n =
    let len = real_len s type n in
    let padding = replicate (excess s.width len) s.pad in
    let front = sign_text s n.neg ++ prefix_text s type in
    let rest = digit_text s n in
    if above s.width len && not s.left
    then (if s.pad == b'0' && (n.neg || (s.sign || (s.space || s.hash)))
        then front ++ (padding ++ rest)
        else padding ++ (front ++ rest))
    else front ++ (rest ++ (if above s.width len && s.left then padding else []))

-- What is added to `count`.
unfoldable pub layout_count : Spec → ℕ → Number → ℕ
layout_count s type n = at_least s.width (real_len s type n)
