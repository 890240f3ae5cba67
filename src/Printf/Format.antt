-- ===== src/Printf/Format.antt =====
-- The main loop of vprintf.
use pzos.Base.{ℕ, zero, suc, ◌+◌, ◌%◌, ◌^◌, Bool, true, false, ◌||◌}
use pzos.Base.{List, [], ◌∷◌, ◌++◌, none, some, ltb, ◌==◌, if◌then◌else◌, length, replicate}
use pzos.Base.Int.{ℤ, pos, negsuc, pos_part, neg_part, to_size, signed, sub_ℕ}
use pzos.Printf.Spec.{
  Spec, Arg, word, text, address, Parsed, spec, bad, plain, parse, long_long_len,
}
use pzos.Printf.Number.{int_value, uint_value, digits, Number, signed_number, layout, layout_count}

-- The characters printed, `count`, and the counts that %n has stored, the latest first.
pub record Out : Type 0 where
  pub printed : List ℕ
  pub count : ℕ
  pub stored : List ℕ

pub data Result : Type 0 where
  done : Out → Result
  failed : Out → Result
  -- undefined behaviour of C
  undefined : Result
  no_fuel : Result

abbrev pub put : List ℕ → ℕ → Out → Out
put cs n o = record o { printed = o.printed ++ cs; count = o.count + n }

-- The first `n` characters.
abbrev pub take : ℕ → List ℕ → List ℕ
take zero cs = []
take (suc n) [] = []
take (suc n) (c ∷ cs) = c ∷ take n cs

-- `min(strlen(str), precision)`, where the precision is converted to size_t.
abbrev pub shown : ℤ → List ℕ → ℕ
shown precision str = if ltb (length str) (to_size precision) then length str else to_size precision

-- How often `while (width-- > n)` runs.
abbrev pub rounds : ℤ → ℤ → ℕ
rounds width n = pos_part (sub_ℕ (pos_part width + neg_part n) (neg_part width + pos_part n))

abbrev pub is_negative : ℤ → Bool
is_negative (pos n) = false
is_negative (negsuc n) = true

unfoldable pub put_string : Spec → List ℕ → Out → Out
put_string s str o =
    let n = shown s.precision str in
    let padding = replicate (rounds s.width (signed 32 n)) b' ' in
    let body = if is_negative s.precision then str else take n str in
    let len = if is_negative s.precision then length str else n in
    if s.left
    then put padding (length padding) (put body len o)
    else put body len (put padding (length padding) o)

unfoldable pub put_number : Spec → ℕ → Number → Out → Out
put_number s type n o = put (layout s type n) (layout_count s type n) o

-- %p sets these.
abbrev pub pointer_spec : Spec → Spec
pointer_spec s = record s {
  size = long_long_len;
  hash = true;
  precision = elim s.precision [ pos n ↦ pos n | negsuc n ↦ if n == 0 then pos 16 else negsuc n ];
}

-- One conversion: the argument that it takes, and what it prints; `refused` is the
-- return of -1.
pub data Conversion : Type 0 where
  prints : Out → List Arg → Conversion
  refused : Conversion
  undefined : Conversion

unfoldable pub unsigned : Spec → ℕ → ℕ → List Arg → Out → Conversion
unsigned s type base (word w ∷ args) o = elim (uint_value s.size w) [
  | none ↦ Conversion.undefined
  | some v ↦
      prints (put_number s type (record { buffer = digits s type base v; neg = false }) o) args
]
unsigned s type base _ o = Conversion.undefined

unfoldable pub decimal : Spec → ℕ → List Arg → Out → Conversion
decimal s type (word w ∷ args) o =
    prints (put_number s type (signed_number s type (int_value s.size w)) o) args
decimal s type _ o = Conversion.undefined

unfoldable pub character : List Arg → Out → Conversion
character (word w ∷ args) o = prints (put (w % 2 ^ 8 ∷ []) 1 o) args
character _ o = Conversion.undefined

unfoldable pub string : Spec → List Arg → Out → Conversion
string s (text str ∷ args) o = prints (put_string s str o) args
string s _ o = Conversion.undefined

unfoldable pub store_count : List Arg → Out → Conversion
store_count (address ∷ args) o = prints (record o { stored = o.count ∷ o.stored }) args
store_count _ o = Conversion.undefined

unfoldable pub convert : Spec → ℕ → List Arg → Out → Conversion
convert s type args o =
    if type == b'p'
    then unsigned (pointer_spec s) b'x' 16 args o
    else if type == b'd' || type == b'i'
    then decimal s type args o
    else if type == b'u'
    then unsigned s type 10 args o
    else if type == b'o'
    then unsigned s type 8 args o
    else if type == b'x' || type == b'X'
    then unsigned s type 16 args o
    else if type == b'c'
    then character args o
    else if type == b's'
    then string s args o
    else if type == b'n'
    then store_count args o
    else if type == b'%'
    then prints (put (b'%' ∷ []) 1 o) args
    else refused

-- What follows a conversion, and a specification that has been read: `next` is the rest of the loop.
unfoldable pub resume : (List ℕ → List Arg → Out → Result) → Out → List ℕ → Conversion → Result
resume next o rest refused = failed o
resume next o rest Conversion.undefined = Result.undefined
resume next o rest (prints o' args) = next rest args o'

unfoldable pub perform : (List ℕ → List Arg → Out → Result) → Out → Parsed → Result
perform next o bad = failed o
perform next o Parsed.undefined = Result.undefined
perform next o (spec s type rest args) = resume next o rest (convert s type args o)

unfoldable pub run : ℕ → List ℕ → List Arg → Out → Result
run zero cs args o = no_fuel
run (suc f) [] args o = done o
run (suc f) (c ∷ cs) args o =
    let literal = run f cs args (put (c ∷ []) 1 o) in
    let conversion = perform (run f) o (parse cs plain args) in
    if c == b'%' then conversion else literal

-- Each round of the loop takes a character of the format, at the least.
unfoldable pub vprintf : List ℕ → List Arg → Result
vprintf format args =
    run (length format + 1) format args (record { printed = []; count = 0; stored = [] })
