-- ===== src/Strings/Search.antt =====
-- strchr.
use pzos.Base.{ℕ, zero, suc, ◌+◌, ◌%◌, ◌^◌, ◌<◌, ◌≡◌, ◌≢◌, ◌⊎◌, inl, inr, refl}
use pzos.Base.{none, some, arith, ◌==◌, Bool-cases}
use pzos.Memory.{Bytes}
use pzos.Strings.{strchr}
use pzos.Strings.Length.{IsString, IsString-rest, first_char, no_char}

-- None of the first `k` characters is `c`.
abbrev pub IsWithout : ℕ → ℕ → ℕ → Bytes → Type 0
IsWithout c s k m = (i : ℕ) → i < k → m (s + i) ≢ c % 2 ^ 8

IsWithout-suc :
    (c s k : ℕ) (m : Bytes) → m s ≢ c % 2 ^ 8 → IsWithout c (s + 1) k m → IsWithout c s (suc k) m
IsWithout-suc c s k m first rest zero lt = ground (arith, first)
IsWithout-suc c s k m first rest (suc i) lt =
    let e : s + suc i ≡ s + 1 + i = omega arith in rw e (rest i (omega arith))

-- strchr gives the first place of a character in a string, or NULL if it is not among the characters
-- before the terminator; so it gives NULL for the terminator itself.
pub strchr-first :
    (f n s c : ℕ) (m : Bytes)
    → IsString s n m
    → n < f
    → (IsWithout c s n m × (strchr f s c m ≡ some none))
      ⊎ ((k : ℕ) × (k < n)
          × IsWithout c s k m
          × (m (s + k) ≡ c % 2 ^ 8)
          × (strchr f s c m ≡ some (some (s + k))))
unfolding strchr
strchr-first zero n s c m str fuel = absurd (omega arith)
strchr-first (suc f) zero s c m str fuel =
    inl (λ i lt. absurd (omega arith), rw (no_char s m str) refl)
strchr-first (suc f) (suc n) s c m str fuel = elim (Bool-cases (m s == c % 2 ^ 8)) [
  | inl found ↦ inr (
    0,
    omega arith,
    λ i lt. absurd (omega arith),
    ground arith,
    rw (first_char s n m str, found) (ground arith),
  )
  | inr other ↦ elim (strchr-first f n (s + 1) c m (IsString-rest s n m str) (omega arith)) [
    | inl (without, e) ↦
        inl (IsWithout-suc c s n m (ground arith) without, rw (first_char s n m str, other) e)
    | inr (k, lt, without, at, e) ↦
        let next : s + suc k ≡ s + 1 + k = omega arith in
        inr (
          suc k,
          omega arith,
          IsWithout-suc c s k m (ground arith) without,
          rw next at,
          rw (next, first_char s n m str, other) e,
        )
  ]
]
