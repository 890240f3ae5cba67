-- ===== src/Printf/Decimal.antt =====
-- %d and %i: the sign and the digits of the value.
use pzos.Base.{ℕ, zero, suc, ◌-◌, ◌/◌, ◌^◌, ◌≤◌, ◌<◌, ◌≡◌, refl, ◌∙◌, ap, arith, true, false, Bool}
use pzos.Base.{
  List, [], ◌∷◌, ◌++◌, ◌==◌, if◌then◌else◌, length, replicate, append-nil, Bool-cases, inl, inr,
}
use pzos.Base.Int.{ℤ, pos, negsuc, signed, sub_ℕ}
use pzos.Printf.Spec.{
  Spec, Length, int_len, char_len, short_len, long_len, long_long_len, intmax_len, size_len,
  ptrdiff_len, double_len, word, plain, parse, step,
}
use pzos.Printf.Number.{
  Number, int_value, signed_number, digits, min_buffer, layout, digit_text, excess, digits_from,
  digit_char,
}
use pzos.Printf.Format.{Out, done, convert, decimal, put_number, perform, resume, run, vprintf}
use mathlib.Core.List.{reverse, reverse-append}
use pzos.Printf.Digits.{read, value, read-digit_text, value-digits}

abbrev pub magnitude : ℤ → ℕ
magnitude (pos n) = n
magnitude (negsuc n) = suc n

abbrev pub is_below_zero : ℤ → Bool
is_below_zero (pos n) = false
is_below_zero (negsuc n) = true

-- The values that a signed type of the machine has.
abbrev pub InRange : ℤ → Type 0
InRange (pos n) = n < 2 ^ 63
InRange (negsuc n) = n < 2 ^ 63

pub int_value-InRange : (n : Length) (w : ℕ) → InRange (int_value n w)
unfolding int_value
int_value-InRange char_len w = ground arith
int_value-InRange short_len w = ground arith
int_value-InRange int_len w = ground arith
int_value-InRange double_len w = ground arith
int_value-InRange long_len w = ground arith
int_value-InRange long_long_len w = ground arith
int_value-InRange intmax_len w = ground arith
int_value-InRange size_len w = ground arith
int_value-InRange ptrdiff_len w = ground arith

min_value : value 10 min_buffer ≡ 2 ^ 63
unfolding value
min_value = refl

-- With any flags, width and precision the digits of a signed value read as its magnitude, the least
-- value included, whose digits are a text of their own in the code; and `neg` says whether it is below
-- zero.
pub read-signed_number :
    (s : Spec) (type : ℕ) (v : ℤ)
    → InRange v
    → (read 10 0 (digit_text s (signed_number s type v)) ≡ magnitude v)
      × ((signed_number s type v).neg ≡ is_below_zero v)
unfolding signed_number
read-signed_number s type (pos n) h =
    (read-digit_text 10 s _ ∙ value-digits s type 10 n (omega arith) (omega arith), refl)
read-signed_number s type (negsuc n) h = elim (Bool-cases (n == 2 ^ 63 - 1)) [
  | inl least ↦
      let least_n : n ≡ 2 ^ 63 - 1 = ground arith in
      rw least (read-digit_text 10 s _ ∙ omega (arith, min_value, least_n), refl)
  | inr more ↦
      rw more
        (read-digit_text 10 s _ ∙ value-digits s type 10 (suc n) (omega arith) (omega arith), refl)
]

abbrev AreDigits : List ℕ → Type 0
AreDigits [] = Unit {0}
AreDigits (c ∷ cs) = (b'0' ≤ c) × AreDigits cs

AreDigits-append : (xs ys : List ℕ) → AreDigits xs → AreDigits ys → AreDigits (xs ++ ys)
AreDigits-append [] ys p q = q
AreDigits-append (x ∷ xs) ys p q = (p.0, AreDigits-append xs ys p.1 q)

AreDigits-reverse : (xs : List ℕ) → AreDigits xs → AreDigits (reverse xs)
AreDigits-reverse [] p = tt
AreDigits-reverse (x ∷ xs) p =
    rw (reverse-append (x ∷ []) xs)
      (AreDigits-append (reverse xs) (x ∷ []) (AreDigits-reverse xs p.1) (p.0, tt))

AreDigits-replicate : (n : ℕ) → AreDigits (replicate n b'0')
AreDigits-replicate zero = tt
AreDigits-replicate (suc n) = (omega arith, AreDigits-replicate n)

AreDigits-digits_from : (n type v : ℕ) → AreDigits (digits_from n type 10 v)
unfolding digits_from digit_char
AreDigits-digits_from zero type v = tt
AreDigits-digits_from (suc n) type v = ground (arith, AreDigits-digits_from n type (v / 10))

AreDigits-digits : (s : Spec) (type v : ℕ) → AreDigits (digits s type 10 v)
unfolding digits
AreDigits-digits s type v = ground (arith, AreDigits-digits_from 64 type v)

AreDigits-signed_number : (s : Spec) (type : ℕ) (v : ℤ) → AreDigits (signed_number s type v).buffer
unfolding signed_number
AreDigits-signed_number s type (pos n) = AreDigits-digits s type n
AreDigits-signed_number s type (negsuc n) = elim (Bool-cases (n == 2 ^ 63 - 1)) [
  | inl least ↦ rw least (omega arith)
  | inr more ↦ rw more (AreDigits-digits s type (suc n))
]

AreDigits-digit_text : (s : Spec) (n : Number) → AreDigits n.buffer → AreDigits (digit_text s n)
unfolding digit_text
AreDigits-digit_text s n p =
    AreDigits-append (replicate (excess s.precision (length n.buffer)) b'0') (reverse n.buffer)
      (AreDigits-replicate (excess s.precision (length n.buffer))) (AreDigits-reverse n.buffer p)

-- A text of decimal digits, with or without a minus before them.
unfoldable pub read_signed : List ℕ → ℤ
read_signed [] = pos 0
read_signed (c ∷ cs) = if c == b'-' then sub_ℕ 0 (read 10 0 cs) else pos (read 10 0 (c ∷ cs))

read_signed-digits : (cs : List ℕ) → AreDigits cs → read_signed cs ≡ pos (read 10 0 cs)
unfolding read_signed read
read_signed-digits [] p = refl
read_signed-digits (c ∷ cs) p = ground arith

layout-plain :
    (type : ℕ) (n : Number)
    → layout plain type n ≡ (if n.neg then b'-' ∷ [] else []) ++ digit_text plain n
unfolding layout
layout-plain type n = ground (arith, append-nil (digit_text plain n))

read-layout :
    (type : ℕ) (v : ℤ)
    → InRange v
    → read_signed (layout plain type (signed_number plain type v)) ≡ v
read-layout type v h =
    let n = signed_number plain type v in
    let (digits_ok, neg_ok) = read-signed_number plain type v h in
    let shape = AreDigits-digit_text plain n (AreDigits-signed_number plain type v) in
    rw (layout-plain type n) (simp neg_ok (by_sign v digits_ok shape))
  where
    by_sign :
        (v : ℤ)
        → read 10 0 (digit_text plain (signed_number plain type v)) ≡ magnitude v
        → AreDigits (digit_text plain (signed_number plain type v))
        → read_signed (
            (if is_below_zero v then b'-' ∷ [] else [])
            ++ digit_text plain (signed_number plain type v))
          ≡ v
    by_sign (pos n) e d = read_signed-digits _ d ∙ ap pos e
    by_sign (negsuc n) e d = unfold read_signed in rw e (ground arith)

vprintf-d :
    (w : ℕ)
    → vprintf (b'%' ∷ b'd' ∷ []) (word w ∷ [])
      ≡ done (
          put_number plain b'd'
            (signed_number plain b'd' (int_value int_len w))
            (record { printed = []; count = 0; stored = [] }))
unfolding vprintf run perform resume parse step convert decimal
vprintf-d w = refl

-- The text that %d prints for any word reads back as the int in its low 32 bits.
pub vprintf-read_signed :
    (w : ℕ)
    → (o : Out) × (vprintf (b'%' ∷ b'd' ∷ []) (word w ∷ []) ≡ done o)
      × (read_signed o.printed ≡ signed 32 w)
vprintf-read_signed w = (
  put_number plain b'd' (signed_number plain b'd' (int_value int_len w))
      (record { printed = []; count = 0; stored = [] }),
  vprintf-d w,
  unfold put_number int_value in read-layout b'd' (signed 32 w) (int_value-InRange int_len w),
)
