-- ===== src/Printf/Digits.antt =====
-- The digits of a number, read back.
use pzos.Base.{
  ℕ, zero, suc, ◌+◌, ◌-◌, ◌*◌, ◌/◌, ◌%◌, ◌^◌, ◌≤◌, ◌<◌, ◌≡◌, refl, ◌∙◌, arith, false, ◌⊎◌,
}
use pzos.Base.{
  List, [], ◌∷◌, ◌++◌, leb, ◌==◌, if◌then◌else◌, length, replicate, Bool-cases, inl, inr,
}
use pzos.Printf.Spec.{Spec}
use pzos.Printf.Number.{digit_char, digits_from, digits, Number, digit_text, excess}
use mathlib.Core.List.{reverse, reverse-append}
use native.Mathlib.Nat.{pow-suc, pow-zero, div-add-mod', mod-lt, div-lt_iff_lt-mul, pow-le-pow_left}

-- The number that a digit character stands for, decimal or hexadecimal.
abbrev pub digit_value : ℕ → ℕ
digit_value c = if leb c b'9' then c - b'0' else if leb c b'F' then c - 55 else c - 87

-- Reading a number, the highest digit first.
unfoldable pub read : ℕ → ℕ → List ℕ → ℕ
read base acc [] = acc
read base acc (c ∷ cs) = read base (acc * base + digit_value c) cs

-- The number that a buffer holds, the lowest digit first.
unfoldable pub value : ℕ → List ℕ → ℕ
value base [] = 0
value base (c ∷ cs) = digit_value c + value base cs * base

-- The bases of vprintf, with a `type` that has the digits which the base needs.
abbrev pub IsBase : ℕ → ℕ → Type 0
IsBase type base = (2 ≤ base) × (base ≤ 16) × ((base ≤ 10) ⊎ ((type ≡ b'x') ⊎ (type ≡ b'X')))

digit_back : (type base d : ℕ) → IsBase type base → d < base → digit_value (digit_char type d) ≡ d
unfolding digit_char
digit_back type base d b h = ground arith

value-digits_from :
    (n type base v : ℕ)
    → IsBase type base
    → v < base ^ n
    → value base (digits_from n type base v) ≡ v
unfolding value digits_from
value-digits_from zero type base v b h = let none : v < 1 = rw pow-zero at h in omega arith
value-digits_from (suc n) type base v b h = elim (Bool-cases (v == 0)) [
  | inl z ↦ ground (arith, z)
  | inr more ↦
      let below : v < base ^ n * base = rw (← pow-suc base n) h in
      let ih =
        value-digits_from n type base (v / base) b ((div-lt_iff_lt-mul (omega arith)).1 below) in
      let small : v % base < base = mod-lt v (omega arith) in
      rw (more, ih, digit_back type base (v % base) b small) (omega (arith, div-add-mod' v base))
]

length-digits_from :
    (n k type base v : ℕ) → 2 ≤ base → v < base ^ k → length (digits_from n type base v) ≤ k
unfolding digits_from
length-digits_from zero k type base v b h = omega arith
length-digits_from (suc n) zero type base v b h =
    let none : v < 1 = rw pow-zero at h in ground arith
length-digits_from (suc n) (suc k) type base v b h =
    let below : v < base ^ k * base = rw (← pow-suc base k) h in
    ground (
      arith,
      length-digits_from n k type base (v / base) b ((div-lt_iff_lt-mul (omega arith)).1 below),
    )

read-append :
    (base acc : ℕ) (xs ys : List ℕ) → read base acc (xs ++ ys) ≡ read base (read base acc xs) ys
unfolding read
read-append base acc [] ys = refl
read-append base acc (x ∷ xs) ys = read-append base (acc * base + digit_value x) xs ys

read-reverse : (base : ℕ) (cs : List ℕ) → read base 0 (reverse cs) ≡ value base cs
unfolding read value
read-reverse base [] = refl
read-reverse base (c ∷ cs) =
    rw (reverse-append (c ∷ []) cs, read-append base 0 (reverse cs) (c ∷ []), read-reverse base cs)
      (omega arith)

read-zeros : (base n : ℕ) → read base 0 (replicate n b'0') ≡ 0
unfolding read
read-zeros base zero = refl
read-zeros base (suc n) = ground (arith, read-zeros base n)

-- The digits that are printed, with the zeros of the precision before them, read as the buffer does.
pub read-digit_text :
    (base : ℕ) (s : Spec) (n : Number) → read base 0 (digit_text s n) ≡ value base n.buffer
unfolding digit_text
read-digit_text base s n =
    rw
      (
        read-append base 0 (replicate (excess s.precision (length n.buffer)) b'0')
            (reverse n.buffer),
        read-zeros,
      )
      (read-reverse base n.buffer)

pub value-digits :
    (s : Spec) (type base v : ℕ)
    → IsBase type base
    → v < 2 ^ 64
    → value base (digits s type base v) ≡ v
unfolding digits value
value-digits s type base v b h =
    let grows : 2 ^ 64 ≤ base ^ 64 = pow-le-pow_left b.0 64 in
    let fits : v < base ^ 64 = omega (arith, grows) in
    ground (arith, value-digits_from 64 type base v b fits)

-- The digits of an unsigned conversion, those of a value of 64 bits, read in its base are the value,
-- whatever flags, width and precision are given.
pub read-digits :
    (s : Spec) (type base v : ℕ)
    → IsBase type base
    → v < 2 ^ 64
    → read base 0 (digit_text s (record { buffer = digits s type base v; neg = false })) ≡ v
read-digits s type base v b h =
    read-digit_text base s (record { buffer = digits s type base v; neg = false })
    ∙ value-digits s type base v b h

-- In base 8 and above a value of 64 bits has at most 22 digits: the buffer of 32 does not overflow.
pub length-digits-le :
    (s : Spec) (type base v : ℕ) → 8 ≤ base → v < 2 ^ 64 → length (digits s type base v) ≤ 22
unfolding digits
length-digits-le s type base v b h =
    let grows : 8 ^ 22 ≤ base ^ 22 = pow-le-pow_left b 22 in
    let fits : v < base ^ 22 = omega (arith, grows) in
    ground (arith, length-digits_from 64 22 type base v (omega arith) fits)
