-- ===== src/Printf/Count.antt =====
-- What vprintf returns: the number of characters that it has printed.
use pzos.Base.{ℕ, zero, suc, ◌+◌, ◌%◌, ◌^◌, ◌≤◌, ◌≡◌, refl, arith, true, false, ◌||◌}
use pzos.Base.{List, [], ◌∷◌, ◌==◌, if◌then◌else◌, length, replicate, length-append}
use pzos.Base.{Bool, Bool-cases, inl, inr, Option-cases}
use pzos.Base.Int.{signed}
use pzos.Printf.Spec.{Spec, Arg, word, text, address, Parsed, spec, bad, plain, parse}
use pzos.Printf.Number.{Number, int_value, uint_value, digits, signed_number, layout}
use pzos.Printf.Format.{
  Out, Result, done, failed, no_fuel, put, take, shown, rounds, is_negative, put_string, put_number,
  resume, perform, pointer_spec, Conversion, prints, refused, unsigned, decimal, character, string,
  store_count, convert, run, vprintf,
}
use pzos.Printf.Layout.{length-layout}

abbrev pub Counted : Out → Type 0
Counted o = o.count ≡ length o.printed

abbrev CountedConversion : Conversion → Type 0
CountedConversion (prints o args) = Counted o
CountedConversion refused = Unit
CountedConversion Conversion.undefined = Unit

-- The output of a run that returns, by the end of the format or by -1.
abbrev pub CountedResult : Result → Type 0
CountedResult (done o) = Counted o
CountedResult (failed o) = Counted o
CountedResult Result.undefined = Unit
CountedResult no_fuel = Unit

put-Counted : (cs : List ℕ) (n : ℕ) (o : Out) → n ≡ length cs → Counted o → Counted (put cs n o)
put-Counted cs n o e c = omega (arith, length-append o.printed cs)

length-take : (n : ℕ) (cs : List ℕ) → n ≤ length cs → length (take n cs) ≡ n
length-take zero cs h = refl
length-take (suc n) [] h = absurd (omega arith)
length-take (suc n) (c ∷ cs) h = omega (arith, length-take n cs)

put_string-Counted : (s : Spec) (str : List ℕ) (o : Out) → Counted o → Counted (put_string s str o)
unfolding put_string
put_string-Counted s str o c =
    let n : ℕ = shown s.precision str in
    let padding : List ℕ = replicate (rounds s.width (signed 32 n)) b' ' in
    let body : List ℕ = if is_negative s.precision then str else take n str in
    let len : ℕ = if is_negative s.precision then length str else n in
    let fits : n ≤ length str = ground arith in
    let same : len ≡ length body = ground (arith, length-take n str fits) in
    elim (Bool-cases s.left) [
      | inl left ↦ rw left (
          put-Counted padding (length padding) (put body len o) refl
            (put-Counted body len o same c))
      | inr right ↦ rw right (
          put-Counted body len (put padding (length padding) o) same
            (put-Counted padding (length padding) o refl c))
    ]

put_number-Counted :
    (s : Spec) (type : ℕ) (n : Number) (o : Out) → Counted o → Counted (put_number s type n o)
unfolding put_number
put_number-Counted s type n o c =
    omega (arith, length-layout s type n, length-append o.printed (layout s type n))

unsigned-Counted :
    (s : Spec) (type base : ℕ) (args : List Arg) (o : Out)
    → Counted o
    → CountedConversion (unsigned s type base args o)
unfolding unsigned
unsigned-Counted s type base [] o c = tt
unsigned-Counted s type base (text str ∷ args) o c = tt
unsigned-Counted s type base (address ∷ args) o c = tt
unsigned-Counted s type base (word w ∷ args) o c = elim (Option-cases (uint_value s.size w)) [
  | inl unset ↦ rw (unset, CountedConversion) tt
  | inr (v, e) ↦
      rw (e, CountedConversion)
        (put_number-Counted s type (record { buffer = digits s type base v; neg = false }) o c)
]

decimal-Counted :
    (s : Spec) (type : ℕ) (args : List Arg) (o : Out)
    → Counted o
    → CountedConversion (decimal s type args o)
unfolding decimal
decimal-Counted s type [] o c = tt
decimal-Counted s type (text str ∷ args) o c = tt
decimal-Counted s type (address ∷ args) o c = tt
decimal-Counted s type (word w ∷ args) o c =
    put_number-Counted s type (signed_number s type (int_value s.size w)) o c

character-Counted : (args : List Arg) (o : Out) → Counted o → CountedConversion (character args o)
unfolding character
character-Counted [] o c = tt
character-Counted (text str ∷ args) o c = tt
character-Counted (address ∷ args) o c = tt
character-Counted (word w ∷ args) o c = put-Counted (w % 2 ^ 8 ∷ []) 1 o refl c

string-Counted :
    (s : Spec) (args : List Arg) (o : Out) → Counted o → CountedConversion (string s args o)
unfolding string
string-Counted s [] o c = tt
string-Counted s (word w ∷ args) o c = tt
string-Counted s (address ∷ args) o c = tt
string-Counted s (text str ∷ args) o c = put_string-Counted s str o c

store_count-Counted :
    (args : List Arg) (o : Out) → Counted o → CountedConversion (store_count args o)
unfolding store_count
store_count-Counted [] o c = tt
store_count-Counted (word w ∷ args) o c = tt
store_count-Counted (text str ∷ args) o c = tt
store_count-Counted (address ∷ args) o c = c

if-Counted :
    (b : Bool) (x y : Conversion)
    → CountedConversion x
    → CountedConversion y
    → CountedConversion (if b then x else y)
if-Counted true x y p q = p
if-Counted false x y p q = q

convert-Counted :
    (s : Spec) (type : ℕ) (args : List Arg) (o : Out)
    → Counted o
    → CountedConversion (convert s type args o)
unfolding convert
convert-Counted s type args o c =
    if-Counted (type == b'p') _ _ (unsigned-Counted (pointer_spec s) b'x' 16 args o c) (
      if-Counted (type == b'd' || type == b'i') _ _ (decimal-Counted s type args o c) (
        if-Counted (type == b'u') _ _ (unsigned-Counted s type 10 args o c) (
          if-Counted (type == b'o') _ _ (unsigned-Counted s type 8 args o c) (
            if-Counted (type == b'x' || type == b'X') _ _ (unsigned-Counted s type 16 args o c) (
              if-Counted (type == b'c') _ _ (character-Counted args o c) (
                if-Counted (type == b's') _ _ (string-Counted s args o c) (
                  if-Counted (type == b'n') _ _ (store_count-Counted args o c)
                    (if-Counted (type == b'%') _ _ (put-Counted (b'%' ∷ []) 1 o refl c) tt))))))))

module _ (next : List ℕ → List Arg → Out → Result)
    (good : (cs : List ℕ) (args : List Arg) (o : Out)
      → Counted o
      → CountedResult (next cs args o)) where
  resume-Counted :
      (o : Out) (rest : List ℕ) (k : Conversion)
      → Counted o
      → CountedConversion k
      → CountedResult (resume next o rest k)
  unfolding resume
  resume-Counted o rest refused c h = c
  resume-Counted o rest Conversion.undefined c h = tt
  resume-Counted o rest (prints o' args) c h = good rest args o' h

  perform-Counted : (o : Out) (p : Parsed) → Counted o → CountedResult (perform next o p)
  unfolding perform
  perform-Counted o bad c = c
  perform-Counted o Parsed.undefined c = tt
  perform-Counted o (spec s type rest args) c =
      resume-Counted o rest (convert s type args o) c (convert-Counted s type args o c)

run-Counted :
    (f : ℕ) (cs : List ℕ) (args : List Arg) (o : Out) → Counted o → CountedResult (run f cs args o)
unfolding run
run-Counted zero cs args o c = tt
run-Counted (suc f) [] args o c = c
run-Counted (suc f) (x ∷ cs) args o c = elim (Bool-cases (x == b'%')) [
  | inr literal ↦
      rw (literal, CountedResult)
        (run-Counted f cs args (put (x ∷ []) 1 o) (put-Counted (x ∷ []) 1 o refl c))
  | inl percent ↦
      rw (percent, CountedResult)
        (perform-Counted (run f) (run-Counted f) o (parse cs plain args) c)
]

-- Whatever the format and the arguments, `count`, which vprintf returns at the end of the format, is
-- the number of characters printed; and so it is at a return of -1.
pub vprintf-Counted : (format : List ℕ) (args : List Arg) → CountedResult (vprintf format args)
unfolding vprintf
vprintf-Counted format args =
    run-Counted (length format + 1) format args (record { printed = []; count = 0; stored = [] })
      refl
