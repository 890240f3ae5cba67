-- ===== src/Memory/Compare.antt =====
-- memcmp.
use pzos.Base.{ℕ, zero, suc, ◌+◌, ◌<◌, ◌≡◌, ◌≢◌, ◌⊎◌, inl, inr, refl}
use pzos.Base.{◌==◌, arith, Bool-cases}
use pzos.Base.Int.{pos, sub_ℕ}
use pzos.Memory.{Bytes, memcmp}

-- The two ranges agree on their first `n` bytes.
abbrev pub Agree : ℕ → ℕ → ℕ → Bytes → Type 0
Agree s1 s2 n m = (i : ℕ) → i < n → m (s1 + i) ≡ m (s2 + i)

pub Agree-suc :
    (s1 s2 n : ℕ) (m : Bytes) → m s1 ≡ m s2 → Agree (s1 + 1) (s2 + 1) n m → Agree s1 s2 (suc n) m
Agree-suc s1 s2 n m first rest zero lt = ground (arith, first)
Agree-suc s1 s2 n m first rest (suc i) lt = ground (arith, rest i (omega arith))

-- memcmp gives 0 if the ranges agree, and else the difference of the bytes at the first place where
-- they do not.
pub memcmp-first :
    (len s1 s2 : ℕ) (m : Bytes)
    → (Agree s1 s2 len m × (memcmp s1 s2 len m ≡ pos 0))
      ⊎ ((k : ℕ) × (k < len)
          × Agree s1 s2 k m
          × (m (s1 + k) ≢ m (s2 + k))
          × (memcmp s1 s2 len m ≡ sub_ℕ (m (s1 + k)) (m (s2 + k))))
unfolding memcmp
memcmp-first zero s1 s2 m = inl (λ i lt. absurd (omega arith), refl)
memcmp-first (suc len) s1 s2 m = elim (Bool-cases (m s1 == m s2)) [
  | inr differ ↦
      inr (0, omega arith, λ i lt. absurd (omega arith), ground arith, rw differ (ground arith))
  | inl same ↦ elim (memcmp-first len (s1 + 1) (s2 + 1) m) [
    | inl (agree, equal) ↦ inl (Agree-suc s1 s2 len m (ground arith) agree, rw same equal)
    | inr (k, lt, agree, differ, e) ↦
        let one : s1 + suc k ≡ s1 + 1 + k = omega arith in
        let two : s2 + suc k ≡ s2 + 1 + k = omega arith in
        inr (
          suc k,
          omega arith,
          Agree-suc s1 s2 k m (ground arith) agree,
          rw (one, two) differ,
          rw (one, two, same) e,
        )
  ]
]
