-- ===== src/Printf/Spec.antt =====
-- A conversion specification of vprintf: its flags, width, precision and length, and how they are
-- read. Characters are numbers, and a format ends where its list does. A signed overflow, which C
-- leaves undefined, is not modelled: width and precision are integers.
use pzos.Base.{ℕ, suc, ◌+◌, ◌-◌, ◌*◌, Bool, true, false, not, ◌&&◌}
use pzos.Base.{List, [], ◌∷◌, leb, ◌==◌, if◌then◌else◌}
use pzos.Base.Int.{ℤ, pos, negsuc, sub_ℕ, signed}

-- The codes 0, -2, -1, 1, 2, 3, 4, 5, 6 of the variable `length`.
pub data Length : Type 0 where
  int_len char_len short_len long_len long_long_len intmax_len size_len ptrdiff_len double_len :
      Length

pub record Spec : Type 0 where
  pub left : Bool
  pub sign : Bool
  pub space : Bool
  pub hash : Bool
  pub pad : ℕ
  pub width : ℤ
  pub precision : ℤ
  pub size : Length
  pub dot : Bool

abbrev pub plain : Spec
plain = record {
  left = false;
  sign = false;
  space = false;
  hash = false;
  pad = b' ';
  width = pos 0;
  precision = negsuc 0;
  size = int_len;
  dot = false;
}

-- What va_arg finds: a register or stack word, a string, or the address of an int.
pub data Arg : Type 0 where
  word : ℕ → Arg
  text : List ℕ → Arg
  address : Arg

-- `undefined` is a va_arg with no argument of its type, or a value that was never set.
pub data Parsed : Type 0 where
  spec : Spec → ℕ → List ℕ → List Arg → Parsed
  bad : Parsed
  undefined : Parsed

abbrev pub is_zero : ℤ → Bool
is_zero (pos n) = n == 0
is_zero (negsuc n) = false

-- `n * 10 + d`
abbrev pub shift_digit : ℤ → ℕ → ℤ
shift_digit (pos n) d = pos (n * 10 + d)
shift_digit (negsuc n) d = sub_ℕ d (suc n * 10)

-- A digit of the precision or of the width.
unfoldable pub add_digit : ℕ → Spec → Spec
add_digit c s =
    if s.dot
    then record s { precision = shift_digit s.precision (c - b'0') }
    else record s { width = shift_digit s.width (c - b'0') }

-- A letter of the length: `none` where the code returns -1.
pub data LengthStep : Type 0 where
  to : Length → LengthStep
  refused : LengthStep
  other : LengthStep

abbrev pub only_first : Length → Length → LengthStep
only_first int_len new = to new
only_first _ new = refused

abbrev pub after_h : Length → LengthStep
after_h int_len = to short_len
after_h short_len = to char_len
after_h _ = refused

abbrev pub after_l : Length → LengthStep
after_l int_len = to long_len
after_l long_len = to long_long_len
after_l _ = refused

unfoldable pub length_step : ℕ → Length → LengthStep
length_step c n =
    if c == b'h'
    then after_h n
    else if c == b'l'
    then after_l n
    else if c == b'j'
    then only_first n intmax_len
    else if c == b'z'
    then only_first n size_len
    else if c == b't'
    then only_first n ptrdiff_len
    else if c == b'L'
    then only_first n double_len
    else other

abbrev pub is_digit : ℕ → Bool
is_digit c = leb b'0' c && leb c b'9'

-- What one character of a specification does to it.
pub data Step : Type 0 where
  go : Spec → Step
  star : Step
  stop : Step
  final : Step

unfoldable pub step : ℕ → Spec → Step
unfolding add_digit length_step
step c s =
    if c == b'-'
    then go (record s { left = true })
    else if c == b'+'
    then go (record s { sign = true })
    else if c == b' '
    then go (record s { space = true })
    else if c == b'#'
    then go (record s { hash = true })
    else if c == b'0' && (is_zero s.width && (not s.dot && s.pad == b' '))
    then go (record s { pad = b'0' })
    else if is_digit c
    then go (add_digit c s)
    else if c == b'.'
    then (if s.dot then stop else go (record s { dot = true; precision = pos 0 }))
    else if c == b'*'
    then star
    else (elim (length_step c s.size) [
      | to n ↦ go (record s { size = n })
      | refused ↦ stop
      | other ↦ final
    ])

abbrev pub with_star : Spec → ℕ → Spec
with_star s w =
    if s.dot then record s { precision = signed 32 w } else record s { width = signed 32 w }

-- `next` reads on behind the character.
unfoldable pub read_star : (Spec → List Arg → Parsed) → Spec → List Arg → Parsed
read_star next s (word w ∷ args) = next (with_star s w) args
read_star next s _ = undefined

unfoldable pub advance : (Spec → List Arg → Parsed) → ℕ → List ℕ → Spec → List Arg → Step → Parsed
unfolding read_star
advance next c cs s args (go s') = next s' args
advance next c cs s args star = read_star next s args
advance next c cs s args stop = bad
advance next c cs s args final = spec s c cs args

-- The loop `while (type == '\0')`, behind the `%`.
unfoldable pub parse : List ℕ → Spec → List Arg → Parsed
unfolding advance
parse [] s args = bad
parse (c ∷ cs) s args = advance (parse cs) c cs s args (step c s)
