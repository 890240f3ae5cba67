-- ===== src/Printf/Loop.antt =====
-- The loops of vprintf end, and what lies between the specifications is printed as it is.
use pzos.Base.{ℕ, zero, suc, ◌+◌, ◌<◌, ◌≡◌, ◌≢◌, refl, sym, ap, ◌∙◌, arith, false}
use pzos.Base.{List, [], ◌∷◌, ◌++◌, ◌==◌, length, append_assoc, append-nil}
use pzos.Base.{Bool-cases, inl, inr}
use pzos.Printf.Spec.{
  Spec, Arg, word, text, address, Parsed, spec, bad, plain, parse, advance, read_star, step, go,
  star, stop, final, with_star, Step,
}
use pzos.Printf.Format.{
  Out, Result, done, no_fuel, put, Conversion, prints, refused, convert, resume, perform, run,
  vprintf,
}

-- A specification that is read leaves fewer characters than there were.
abbrev Shorter : ℕ → Parsed → Type 0
Shorter n (spec s type rest args) = length rest < n
Shorter n bad = Unit
Shorter n Parsed.undefined = Unit

Shorter-mono : (p : Parsed) (n : ℕ) → Shorter n p → Shorter (suc n) p
Shorter-mono (spec s type rest args) n h = omega arith
Shorter-mono bad n h = tt
Shorter-mono Parsed.undefined n h = tt

module _ (next : Spec → List Arg → Parsed) (c : ℕ) (cs : List ℕ)
    (short : (s : Spec) (args : List Arg) → Shorter (length cs) (next s args)) where
  read_star-Shorter :
      (s : Spec) (args : List Arg) → Shorter (suc (length cs)) (read_star next s args)
  unfolding read_star
  read_star-Shorter s [] = tt
  read_star-Shorter s (text str ∷ args) = tt
  read_star-Shorter s (address ∷ args) = tt
  read_star-Shorter s (word w ∷ args) =
      Shorter-mono (next (with_star s w) args) (length cs) (short (with_star s w) args)

  advance-Shorter :
      (s : Spec) (args : List Arg) (t : Step)
      → Shorter (suc (length cs)) (advance next c cs s args t)
  unfolding advance
  advance-Shorter s args (go s') = Shorter-mono (next s' args) (length cs) (short s' args)
  advance-Shorter s args star = read_star-Shorter s args
  advance-Shorter s args stop = tt
  advance-Shorter s args final = omega arith

parse-Shorter : (cs : List ℕ) (s : Spec) (args : List Arg) → Shorter (length cs) (parse cs s args)
unfolding parse
parse-Shorter [] s args = tt
parse-Shorter (c ∷ cs) s args = advance-Shorter (parse cs) c cs (parse-Shorter cs) s args (step c s)

module _ (n : ℕ) (next : List ℕ → List Arg → Out → Result)
    (ends : (cs : List ℕ) (args : List Arg) (o : Out)
      → length cs < n
      → next cs args o ≢ no_fuel) where
  resume-ends :
      (o : Out) (rest : List ℕ) (k : Conversion) → length rest < n → resume next o rest k ≢ no_fuel
  unfolding resume
  resume-ends o rest refused h = ground arith
  resume-ends o rest Conversion.undefined h = ground arith
  resume-ends o rest (prints o' args) h = ends rest args o' h

  perform-ends : (o : Out) (p : Parsed) → Shorter n p → perform next o p ≢ no_fuel
  unfolding perform
  perform-ends o bad h = ground arith
  perform-ends o Parsed.undefined h = ground arith
  perform-ends o (spec s type rest args) h = resume-ends o rest (convert s type args o) h

run-ends :
    (f : ℕ) (cs : List ℕ) (args : List Arg) (o : Out) → length cs < f → run f cs args o ≢ no_fuel
unfolding run
run-ends zero cs args o h = absurd (omega arith)
run-ends (suc f) [] args o h = ground arith
run-ends (suc f) (x ∷ cs) args o h = elim (Bool-cases (x == b'%')) [
  | inr literal ↦ rw literal (run-ends f cs args (put (x ∷ []) 1 o) (omega arith))
  | inl percent ↦ rw percent (
      perform-ends (length cs) (run f) (λ r a u lt. run-ends f r a u (omega arith)) o
        (parse cs plain args) (parse-Shorter cs plain args))
]

-- vprintf ends on every format.
pub vprintf-ends : (format : List ℕ) (args : List Arg) → vprintf format args ≢ no_fuel
unfolding vprintf
vprintf-ends format args = run-ends (length format + 1) format args _ (omega arith)

abbrev pub IsLiteral : List ℕ → Type 0
IsLiteral [] = Unit {0}
IsLiteral (c ∷ cs) = (c ≢ b'%') × IsLiteral cs

run-literal :
    (cs rest : List ℕ) (f n : ℕ) (args : List Arg) (o : Out)
    → IsLiteral cs
    → n ≡ length cs + f
    → run n (cs ++ rest) args o ≡ run f rest args (put cs (length cs) o)
unfolding run
run-literal [] rest f n args o h e =
    let same : n ≡ f = omega arith in
    rw (same, append-nil) (ap (λ k. run f rest args (record o { count = k })) (omega arith))
run-literal (c ∷ cs) rest f zero args o h e = absurd (omega arith)
run-literal (c ∷ cs) rest f (suc n) args o h e =
    let other : (c == b'%') ≡ false = ground arith in
    rw other (
      run-literal cs rest f n args (put (c ∷ []) 1 o) h.1 (omega arith)
      ∙ ap (λ x. run f rest args x) (same_out c cs o))
  where
    same_out :
        (c : ℕ) (cs : List ℕ) (o : Out)
        → put cs (length cs) (put (c ∷ []) 1 o) ≡ put (c ∷ cs) (length (c ∷ cs)) o
    same_out c cs o = ground (arith, append_assoc o.printed (c ∷ []) cs)

-- A format without `%` is printed as it is.
pub vprintf-literal :
    (cs : List ℕ) (args : List Arg)
    → IsLiteral cs
    → vprintf cs args ≡ done (record { printed = cs; count = length cs; stored = [] })
unfolding vprintf
vprintf-literal cs args h =
    ap (λ l. run (length cs + 1) l args start) (sym (append-nil cs))
    ∙ run-literal cs [] 1 (length cs + 1) args start h refl
    ∙ unfold run in ap (λ k. done (record start { printed = cs; count = k })) (omega arith)
  where
    start : Out
    start = record { printed = []; count = 0; stored = [] }
