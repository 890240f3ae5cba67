-- ===== src/Strings/Compare.antt =====
-- strcmp and strncmp.
use pzos.Base.{
  ℕ, zero, suc, ◌+◌, ◌-◌, ◌≤◌, ◌<◌, ◌≡◌, ◌≢◌, ◌⊎◌, ◌↔◌, inl, inr, refl, sym, ◌∙◌, true, false,
}
use pzos.Base.{Option, some, arith, ◌==◌, ◌&&◌, not, Bool-cases}
use pzos.Base.Int.{ℤ, pos, sub_ℕ}
use pzos.Memory.{Bytes}
use pzos.Memory.Compare.{Agree, Agree-suc}
use pzos.Strings.{strcmp, strncmp}
use pzos.Strings.Length.{IsString, IsString-rest, no_char}

-- The place where a comparison ends: all characters before it are equal and none is a terminator,
-- and there one string ends or the two differ.
abbrev pub StopsAt : ℕ → ℕ → ℕ → Bytes → Type 0
StopsAt s1 s2 k m =
    Agree s1 s2 k m
    × ((i : ℕ) → i < k → m (s1 + i) ≢ 0)
    × ((m (s1 + k) ≡ 0) ⊎ (m (s1 + k) ≢ m (s2 + k)))

Stops-here : (s1 s2 : ℕ) (m : Bytes) → (not (m s1 == 0) && m s1 == m s2) ≡ false → StopsAt s1 s2 0 m
Stops-here s1 s2 m stop = (λ i lt. absurd (omega arith), λ i lt. absurd (omega arith), ground arith)

nonzero_suc :
    (s k : ℕ) (m : Bytes)
    → m s ≢ 0
    → ((i : ℕ) → i < k → m (s + 1 + i) ≢ 0)
    → (i : ℕ) → i < suc k
    → m (s + i) ≢ 0
nonzero_suc s k m first rest zero lt = ground (arith, first)
nonzero_suc s k m first rest (suc i) lt =
    let e : s + suc i ≡ s + 1 + i = omega arith in rw e (rest i (omega arith))

Stops-suc :
    (s1 s2 k : ℕ) (m : Bytes)
    → (not (m s1 == 0) && m s1 == m s2) ≡ true
    → StopsAt (s1 + 1) (s2 + 1) k m
    → StopsAt s1 s2 (suc k) m
Stops-suc s1 s2 k m on (agree, chars, stop) =
    let one : s1 + suc k ≡ s1 + 1 + k = omega arith in
    let two : s2 + suc k ≡ s2 + 1 + k = omega arith in
    (
      Agree-suc s1 s2 k m (ground arith) agree,
      nonzero_suc s1 k m (ground arith) chars,
      rw (one, two) stop,
    )

-- strcmp ends within the length of its first string, and gives the difference of the characters where
-- it ends.
pub strcmp-stops :
    (f n s1 s2 : ℕ) (m : Bytes)
    → IsString s1 n m
    → n < f
    → (k : ℕ) × (k ≤ n)
      × StopsAt s1 s2 k m
      × (strcmp f s1 s2 m ≡ some (sub_ℕ (m (s1 + k)) (m (s2 + k))))
unfolding strcmp
strcmp-stops zero n s1 s2 m str fuel = absurd (omega arith)
strcmp-stops (suc f) zero s1 s2 m str fuel =
    let stop : (not (m s1 == 0) && m s1 == m s2) ≡ false = rw (no_char s1 m str) refl in
    (0, omega arith, Stops-here s1 s2 m stop, rw stop (ground arith))
strcmp-stops (suc f) (suc n) s1 s2 m str fuel =
    elim (Bool-cases (not (m s1 == 0) && m s1 == m s2)) [
      | inr stop ↦ (0, omega arith, Stops-here s1 s2 m stop, rw stop (ground arith))
      | inl on ↦
          let (k, le, stops, e) =
            strcmp-stops f n (s1 + 1) (s2 + 1) m (IsString-rest s1 n m str) (omega arith) in
          let one : s1 + suc k ≡ s1 + 1 + k = omega arith in
          let two : s2 + suc k ≡ s2 + 1 + k = omega arith in
          (suc k, omega arith, Stops-suc s1 s2 k m on stops, rw (one, two, on) e)
    ]

no_difference : (a b : ℕ) → sub_ℕ a b ≡ pos 0 → a ≡ b
no_difference a b e = ground arith

some-injective : (a b : ℤ) → ◌≡◌ {A = Option ℤ} (some a) (some b) → a ≡ b
some-injective a b e = cc e

end_of_string : (s n k : ℕ) (m : Bytes) → IsString s n m → k ≤ n → m (s + k) ≡ 0 → k ≡ n
end_of_string s n k m (chars, end) le zero_at = elim (Bool-cases (k == n)) [
  | inl at ↦ ground arith
  | inr before ↦ absurd (chars k (ground arith) zero_at)
]

-- strcmp gives 0 exactly for two equal strings.
pub strcmp-equal :
    (f n s1 s2 : ℕ) (m : Bytes)
    → IsString s1 n m
    → n < f
    → (strcmp f s1 s2 m ≡ some (pos 0)) ↔ Agree s1 s2 (n + 1) m
strcmp-equal f n s1 s2 m str fuel =
    let (k, le, (agree, chars, stop), e) = strcmp-stops f n s1 s2 m str fuel in
    (
      λ equal.
          (let same : m (s1 + k) ≡ m (s2 + k) =
              no_difference (m (s1 + k)) (m (s2 + k))
                (some-injective (sub_ℕ (m (s1 + k)) (m (s2 + k))) (pos 0) (sym e ∙ equal)) in
            let last : k ≡ n = end_of_string s1 n k m str le (ground (arith, stop, same)) in
            λ i lt. elim (Bool-cases (i == k)) [
              | inl at ↦ let here : i ≡ k = ground arith in rw here same
              | inr before ↦ agree i (ground (arith, last))
            ]),
      λ all.
          (let same : m (s1 + k) ≡ m (s2 + k) = all k (omega arith) in e ∙ rw same (ground arith)),
    )

-- strncmp compares at most `c` characters: it ends as strcmp does, before them, or gives 0 if these
-- characters agree.
pub strncmp-stops :
    (f n s1 s2 c : ℕ) (m : Bytes)
    → IsString s1 n m
    → n < f
    → ((k : ℕ) × (k ≤ n)
        × (k < c)
        × StopsAt s1 s2 k m
        × (strncmp f s1 s2 c m ≡ some (sub_ℕ (m (s1 + k)) (m (s2 + k)))))
      ⊎ (Agree s1 s2 c m × (strncmp f s1 s2 c m ≡ some (pos 0)))
unfolding strncmp
strncmp-stops zero n s1 s2 c m str fuel = absurd (omega arith)
strncmp-stops (suc f) n s1 s2 zero m str fuel = inr (λ i lt. absurd (omega arith), refl)
strncmp-stops (suc f) zero s1 s2 (suc c) m str fuel =
    let stop : (not (m s1 == 0) && m s1 == m s2) ≡ false = rw (no_char s1 m str) refl in
    inl (0, omega arith, omega arith, Stops-here s1 s2 m stop, rw stop (ground arith))
strncmp-stops (suc f) (suc n) s1 s2 (suc c) m str fuel =
    elim (Bool-cases (not (m s1 == 0) && m s1 == m s2)) [
      | inr stop ↦
          inl (0, omega arith, omega arith, Stops-here s1 s2 m stop, rw stop (ground arith))
      | inl on ↦
          let less : suc c - 1 ≡ c = omega arith in
          elim (strncmp-stops f n (s1 + 1) (s2 + 1) c m (IsString-rest s1 n m str) (omega arith)) [
            | inr (agree, e) ↦
                inr (Agree-suc s1 s2 c m (ground arith) agree, rw (on, less) (ground (arith, e)))
            | inl (k, le, lt, stops, e) ↦
                let one : s1 + suc k ≡ s1 + 1 + k = omega arith in
                let two : s2 + suc k ≡ s2 + 1 + k = omega arith in
                inl (
                  suc k,
                  omega arith,
                  omega arith,
                  Stops-suc s1 s2 k m on stops,
                  rw (one, two, on, less) (ground (arith, e)),
                )
          ]
    ]
