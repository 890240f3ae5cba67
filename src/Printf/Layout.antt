-- ===== src/Printf/Layout.antt =====
-- How long the text of a number is.
use pzos.Base.{ℕ, ◌+◌, ◌≡◌, refl, arith}
use pzos.Base.{List, [], ◌∷◌, ◌++◌, length, replicate, length-append, length-replicate}
use pzos.Printf.Spec.{Spec}
use pzos.Printf.Number.{
  Number, excess, at_least, sign_text, prefix_text, real_len, digit_text, layout, layout_count,
}
use mathlib.Core.List.{reverse, reverse-append}

pub length-reverse {ℓ} : {A : Type ℓ} (xs : List A) → length (reverse xs) ≡ length xs
length-reverse [] = refl
length-reverse (x ∷ xs) =
    rw (reverse-append (x ∷ []) xs)
      (omega (arith, length-append (reverse xs) (x ∷ []), length-reverse xs))

length-digit_text :
    (s : Spec) (n : Number) → length (digit_text s n) ≡ at_least s.precision (length n.buffer)
unfolding digit_text
length-digit_text s n = ground (
  arith,
  length-append (replicate (excess s.precision (length n.buffer)) b'0') (reverse n.buffer),
  length-replicate {A = ℕ} (excess s.precision (length n.buffer)) b'0',
  length-reverse n.buffer,
)

front_length :
    (s : Spec) (type : ℕ) (n : Number)
    → length (sign_text s n.neg) + length (prefix_text s type) + length (digit_text s n)
      ≡ real_len s type n
unfolding real_len
front_length s type n = ground (arith, length-digit_text s n)

-- The text of a number has the length that is added to `count`: its sign, prefix and digits, filled
-- up to the width.
pub length-layout :
    (s : Spec) (type : ℕ) (n : Number) → length (layout s type n) ≡ layout_count s type n
unfolding layout layout_count
length-layout s type n =
    let front = sign_text s n.neg ++ prefix_text s type in
    let rest = digit_text s n in
    let padding = replicate (excess s.width (real_len s type n)) s.pad in
    ground (
      arith,
      front_length s type n,
      length-append (sign_text s n.neg) (prefix_text s type),
      length-replicate {A = ℕ} (excess s.width (real_len s type n)) s.pad,
      length-append front (padding ++ rest),
      length-append padding rest,
      length-append padding (front ++ rest),
      length-append front rest,
      length-append front (rest ++ padding),
      length-append rest padding,
      length-append front (rest ++ []),
      length-append rest [],
    )
