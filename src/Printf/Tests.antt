-- ===== src/Printf/Tests.antt =====
-- Runs of vprintf, and its theorems at concrete formats.
use pzos.Base.{
  ℕ, ◌-◌, ◌^◌, ◌≤◌, ◌≡◌, ◌≢◌, refl, arith, inl, inr, length, List, [], ◌∷◌, true, false,
}
use pzos.Base.Int.{pos, negsuc}
use pzos.Printf.Spec.{Spec, word, text, plain, parse, step}
use pzos.Printf.Number.{
  int_value, uint_value, digits, digits_from, digit_char, signed_number, layout, layout_count,
  real_len, digit_text,
}
use pzos.Printf.Format.{
  Out, Result, done, no_fuel, run, perform, resume, vprintf, convert, decimal, unsigned, string,
  put_string, put_number,
}
use pzos.Printf.Digits.{read, read-digits, length-digits-le}
use pzos.Printf.Layout.{length-layout}
use pzos.Printf.Count.{CountedResult, vprintf-Counted}
use pzos.Printf.Loop.{vprintf-ends, vprintf-literal}
use pzos.Printf.Decimal.{read-signed_number, read_signed, vprintf-read_signed}
use Prim.Native.String.{String}
use Prim.Native.Char.{code}

abbrev codes : String → List ℕ
codes String.[] = []
codes (String.◌∷◌ c s) = code c ∷ codes s

-- The text of a run that returns.
abbrev text_of : Result → List ℕ
text_of (done o) = o.printed
text_of _ = []

runs :
    (text_of (vprintf (codes "%5d|%-5d|%05d") (word 42 ∷ word 42 ∷ word 42 ∷ []))
      ≡ codes "   42|42   |00042")
    × (text_of (vprintf (codes "%+d %x %#X") (word 7 ∷ word 0xbeef ∷ word 0xbeef ∷ []))
        ≡ codes "+7 beef 0XBEEF")
    × (text_of (vprintf (codes "%p") (word 0x1000 ∷ [])) ≡ codes "0x0000000000001000")
    × (text_of (vprintf (codes "%lld") (word (2 ^ 63) ∷ [])) ≡ codes "-9223372036854775808")
    × (text_of (vprintf (codes "%-6.4s!") (text (codes "ACPI2") ∷ [])) ≡ codes "ACPI  !")
unfolding vprintf run perform resume parse convert decimal unsigned string put_string put_number
    signed_number digits digits_from digit_char layout layout_count real_len digit_text int_value
    uint_value step
runs = (refl, refl, refl, refl, refl)

read-digits_test :
    read 16 0 (digit_text plain (record { buffer = digits plain b'x' 16 0xbeef; neg = false }))
    ≡ 0xbeef
read-digits_test =
    read-digits plain b'x' 16 0xbeef (omega arith, omega arith, inr (inl refl)) (omega arith)

buffer_test : length (digits plain b'o' 8 (2 ^ 64 - 1)) ≤ 22
buffer_test = length-digits-le plain b'o' 8 (2 ^ 64 - 1) (omega arith) (omega arith)

-- Left-justified, with a width, a sign and a prefix.
abbrev wide : Spec
wide = record plain { left = true; sign = true; hash = true; width = pos 12 }

length-layout_test :
    length (layout wide b'x' (record { buffer = b'a' ∷ []; neg = false }))
    ≡ layout_count wide b'x' (record { buffer = b'a' ∷ []; neg = false })
length-layout_test = length-layout wide b'x' (record { buffer = b'a' ∷ []; neg = false })

vprintf-Counted_example :
    CountedResult (vprintf (codes "%5d|%s") (word 42 ∷ text (codes "ab") ∷ []))
vprintf-Counted_example = vprintf-Counted (codes "%5d|%s") (word 42 ∷ text (codes "ab") ∷ [])

vprintf-ends_example : vprintf (codes "%%%d") (word 42 ∷ []) ≢ no_fuel
vprintf-ends_example = vprintf-ends (codes "%%%d") (word 42 ∷ [])

literal_test :
    vprintf (codes "PZOS") [] ≡ done (record { printed = codes "PZOS"; count = 4; stored = [] })
literal_test = vprintf-literal (codes "PZOS") [] (omega arith)

signed_number_test :
    (read 10 0 (digit_text wide (signed_number wide b'd' (negsuc (2 ^ 63 - 1)))) ≡ 2 ^ 63)
    × ((signed_number wide b'd' (negsuc (2 ^ 63 - 1))).neg ≡ true)
signed_number_test = read-signed_number wide b'd' (negsuc (2 ^ 63 - 1)) (omega arith)

vprintf-read_signed_example :
    (o : Out) × (vprintf (b'%' ∷ b'd' ∷ []) (word (2 ^ 32 - 7) ∷ []) ≡ done o)
    × (read_signed o.printed ≡ negsuc 6)
vprintf-read_signed_example = vprintf-read_signed (2 ^ 32 - 7)
