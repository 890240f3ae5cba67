-- ===== src/Base/Bits.antt =====
-- Single bits of a number, and what `&`, `|` and the masks of one bit do to them.
use Prim.Native.Nat.{ℕ, zero, suc, ◌+◌, ◌-◌, ◌*◌, ◌/◌, ◌%◌, ◌^◌, ◌≤◌, ◌<◌, min, max}
use Prim.Native.Nat.{bit_and, bit_or, digits, bitwise, bit_and-bitwise, bit_or-bitwise}
use mathlib.Core.Path.{◌≡◌, refl, ap, ◌∙◌}
use mathlib.Core.Logic.{inl, inr}
use mathlib.Core.Bool.{Bool, true, not, ◌&&◌, ◌||◌}
use native.Mathlib.Nat.{pow-suc}
use native.Mathlib.Omega.{arith}
use pzos.Base.Tests.{◌==◌, all_below, all_below_sound, if◌then◌else◌, leb, Bool-cases}

-- The operations are a recursion on binary digits with fuel. Rounds beyond enough change nothing, so the operation on the halves is the half of the operation.
module _ (rest : ℕ → ℕ) (op : ℕ → ℕ → ℕ) where
  one_more : (n a b : ℕ) → a ≤ n → digits rest op (suc n) a b ≡ digits rest op n a b
  one_more zero zero b le = refl
  one_more zero (suc a) b le = absurd (omega arith)
  one_more (suc n) zero b le = refl
  one_more (suc n) (suc a) b le =
      ap (λ h. h * 2 + op (suc a % 2) (b % 2)) (one_more n (suc a / 2) (b / 2) (omega arith))

  more_fuel : (m a b : ℕ) → a ≤ m → digits rest op m a b ≡ bitwise rest op a b
  more_fuel zero a b le = let none_left : a ≡ 0 = omega arith in rw none_left refl
  more_fuel (suc m) a b le = elim (Bool-cases (leb a m)) [
    | inl less ↦ one_more m a b (ground arith) ∙ more_fuel m a b (ground arith)
    | inr top ↦ let full : suc m ≡ a = ground arith in ap (λ k. digits rest op k a b) full
  ]

  halves :
      (c d : ℕ)
      → bitwise rest op (suc c) d ≡ bitwise rest op (suc c / 2) (d / 2) * 2 + op (suc c % 2) (d % 2)
  halves c d =
      ap (λ h. h * 2 + op (suc c % 2) (d % 2)) (more_fuel c (suc c / 2) (d / 2) (omega arith))

pub bit_or-half : (v w : ℕ) → bit_or v w ≡ max (v % 2) (w % 2) + 2 * bit_or (v / 2) (w / 2)
bit_or-half zero w = omega (arith, bit_or-bitwise 0 w, bit_or-bitwise 0 (w / 2))
bit_or-half (suc v) w =
    omega
      (arith, halves (λ r. r) max v w, bit_or-bitwise (suc v) w, bit_or-bitwise (suc v / 2) (w / 2))

pub bit_and-half : (v w : ℕ) → bit_and v w ≡ min (v % 2) (w % 2) + 2 * bit_and (v / 2) (w / 2)
bit_and-half zero w = omega (arith, bit_and-bitwise 0 w, bit_and-bitwise 0 (w / 2))
bit_and-half (suc v) w =
    omega (
      arith,
      halves (λ r. 0) min v w,
      bit_and-bitwise (suc v) w,
      bit_and-bitwise (suc v / 2) (w / 2),
    )

-- Bit `k` of `w`.
unfoldable pub test : ℕ → ℕ → Bool
test w zero = w % 2 == 1
test w (suc k) = test (w / 2) k

pub test-or : (a b k : ℕ) → test (bit_or a b) k ≡ (test a k || test b k)
unfolding test
test-or a b zero = ground (arith, bit_or-half a b)
test-or a b (suc k) =
    let half : bit_or a b / 2 ≡ bit_or (a / 2) (b / 2) = omega (arith, bit_or-half a b) in
    rw half (test-or (a / 2) (b / 2) k)

pub test-and : (a b k : ℕ) → test (bit_and a b) k ≡ (test a k && test b k)
unfolding test
test-and a b zero = ground (arith, bit_and-half a b)
test-and a b (suc k) =
    let half : bit_and a b / 2 ≡ bit_and (a / 2) (b / 2) = omega (arith, bit_and-half a b) in
    rw half (test-and (a / 2) (b / 2) k)

module _ (one : ℕ → ℕ → Bool) where
  abbrev square_table : Bool
  square_table = all_below 64 (λ k. all_below 64 (λ j. one k j))

  square_table_sound : (k j : ℕ) → square_table ≡ true → k < 64 → j < 64 → one k j ≡ true
  square_table_sound k j h hk hj =
      all_below_sound 64 (one k) j (all_below_sound 64 (λ k. all_below 64 (λ j. one k j)) k h hk) hj

-- All ones but bit `k`: `~(1ULL << k)`.
abbrev pub all_but : ℕ → ℕ
all_but k = 2 ^ 64 - 1 - 2 ^ k

one_bit_table : square_table (λ k j. if k == j then test (2 ^ k) j else not (test (2 ^ k) j)) ≡ true
unfolding test
one_bit_table = refl

all_but_table :
    square_table (λ k j. if k == j then not (test (all_but k) j) else test (all_but k) j) ≡ true
unfolding test
all_but_table = refl

pub test-pow : (k j : ℕ) → k < 64 → j < 64 → test (2 ^ k) j ≡ (k == j)
test-pow k j hk hj = ground (
  arith,
  square_table_sound (λ k j. if k == j then test (2 ^ k) j else not (test (2 ^ k) j)) k j
      one_bit_table hk hj,
)

pub test-all_but : (k j : ℕ) → k < 64 → j < 64 → test (all_but k) j ≡ not (k == j)
test-all_but k j hk hj = ground (
  arith,
  square_table_sound (λ k j. if k == j then not (test (all_but k) j) else test (all_but k) j) k j
      all_but_table hk hj,
)

lt_pow : (n : ℕ) → n < 2 ^ n
lt_pow zero = omega arith
lt_pow (suc n) = omega (arith, lt_pow n, pow-suc 2 n)

-- By the number of halvings.
nothing_masked : (k w : ℕ) → w < 2 ^ k → bit_and w 0 ≡ 0
nothing_masked zero w lt = let none_left : w ≡ 0 = omega arith in rw none_left (bit_and-bitwise 0 0)
nothing_masked (suc k) w lt =
    let smaller : w / 2 < 2 ^ k = omega (arith, pow-suc 2 k) in
    omega (arith, bit_and-half w 0, nothing_masked k (w / 2) smaller)

-- `w & (1ULL << k)` is zero exactly when bit `k` of `w` is.
pub masked : (w k : ℕ) → (bit_and w (2 ^ k) == 0) ≡ not (test w k)
unfolding test
masked w zero = ground (arith, bit_and-half w 1, nothing_masked (w / 2) (w / 2) (lt_pow (w / 2)))
masked w (suc k) =
    let up : bit_and w (2 ^ suc k)
        ≡ min (w % 2) (2 ^ suc k % 2) + 2 * bit_and (w / 2) (2 ^ suc k / 2) =
      bit_and-half w (2 ^ suc k) in
    let half : 2 ^ suc k / 2 ≡ 2 ^ k = omega (arith, pow-suc 2 k) in
    let even : 2 ^ suc k % 2 ≡ 0 = omega (arith, pow-suc 2 k) in
    let down : bit_and w (2 ^ suc k) ≡ 2 * bit_and (w / 2) (2 ^ k) =
      rw (up, half, even) (omega arith) in
    rw down (ground (arith, masked (w / 2) k))

pub bit_and-zero : (w : ℕ) → bit_and w 0 ≡ 0
bit_and-zero w = nothing_masked w w (lt_pow w)

nothing_added : (k w : ℕ) → w < 2 ^ k → bit_or w 0 ≡ w
nothing_added zero w lt = let none_left : w ≡ 0 = omega arith in rw none_left (bit_or-bitwise 0 0)
nothing_added (suc k) w lt =
    let smaller : w / 2 < 2 ^ k = omega (arith, pow-suc 2 k) in
    omega (arith, bit_or-half w 0, nothing_added k (w / 2) smaller)

double : (b p : ℕ) → b * (p * 2) ≡ 2 * (b * p)
double b p = grind arith

pub pow_step : (k b : ℕ) → b * 2 ^ suc k ≡ 2 * (b * 2 ^ k)
pow_step k b = ap (λ p. b * p) (pow-suc 2 k) ∙ double b (2 ^ k)

-- Two numbers side by side: the mask takes the low one, and `|` puts them together.
pub bit_and-low : (k b a : ℕ) → a < 2 ^ k → bit_and (b * 2 ^ k + a) (2 ^ k - 1) ≡ a
bit_and-low zero b a lt = omega (arith, bit_and-zero (b * 2 ^ 0 + a))
bit_and-low (suc k) b a lt =
    let w = b * 2 ^ suc k + a in
    let half : (2 ^ suc k - 1) / 2 ≡ 2 ^ k - 1 = omega (arith, pow-suc 2 k, lt_pow k) in
    let odd : (2 ^ suc k - 1) % 2 ≡ 1 = omega (arith, pow-suc 2 k, lt_pow k) in
    let down : w / 2 ≡ b * 2 ^ k + a / 2 = omega (arith, pow_step k b) in
    let last : w % 2 ≡ a % 2 = omega (arith, pow_step k b) in
    let step : bit_and w (2 ^ suc k - 1)
        ≡ min (w % 2) ((2 ^ suc k - 1) % 2) + 2 * bit_and (w / 2) ((2 ^ suc k - 1) / 2) =
      bit_and-half w (2 ^ suc k - 1) in
    let rest : bit_and (b * 2 ^ k + a / 2) (2 ^ k - 1) ≡ a / 2 =
      bit_and-low k b (a / 2) (omega (arith, pow-suc 2 k)) in
    rw (step, half, odd, down, last, rest) (omega arith)

pub bit_or-add : (k b a : ℕ) → a < 2 ^ k → bit_or (b * 2 ^ k) a ≡ b * 2 ^ k + a
bit_or-add zero b a lt =
    let none_left : a ≡ 0 = omega arith in
    let same : b * 2 ^ 0 ≡ b = omega arith in
    rw (none_left, same) (omega (arith, nothing_added b b (lt_pow b)))
bit_or-add (suc k) b a lt =
    let all : b * 2 ^ suc k ≡ 2 * (b * 2 ^ k) = pow_step k b in
    let half : b * 2 ^ suc k / 2 ≡ b * 2 ^ k = omega (arith, all) in
    let rest : bit_or (b * 2 ^ k) (a / 2) ≡ b * 2 ^ k + a / 2 =
      bit_or-add k b (a / 2) (omega (arith, pow-suc 2 k)) in
    let step : bit_or (b * 2 ^ suc k) a
        ≡ max (b * 2 ^ suc k % 2) (a % 2) + 2 * bit_or (b * 2 ^ suc k / 2) (a / 2) =
      bit_or-half (b * 2 ^ suc k) a in
    rw (step, half, rest) (omega (arith, all))

-- `|` of two words, each in two parts, is that of the parts.
pub bit_or-parts :
    (k b a d c : ℕ)
    → a < 2 ^ k
    → c < 2 ^ k
    → (bit_or (b * 2 ^ k + a) (d * 2 ^ k + c) ≡ bit_or b d * 2 ^ k + bit_or a c)
      × (bit_or a c < 2 ^ k)
bit_or-parts zero b a d c ha hc =
    let a0 : a ≡ 0 = omega arith in
    let c0 : c ≡ 0 = omega arith in
    let b1 : b * 2 ^ 0 + 0 ≡ b = omega arith in
    let d1 : d * 2 ^ 0 + 0 ≡ d = omega arith in
    let none : bit_or 0 0 ≡ 0 = bit_or-bitwise 0 0 in
    (
      rw (a0, c0, b1, d1, none) (omega arith),
      omega (arith, ap (λ v. bit_or v c) a0, ap (λ v. bit_or 0 v) c0, none),
    )
bit_or-parts (suc k) b a d c ha hc =
    let v = b * 2 ^ suc k + a in
    let w = d * 2 ^ suc k + c in
    let v2 : v / 2 ≡ b * 2 ^ k + a / 2 = omega (arith, pow_step k b) in
    let w2 : w / 2 ≡ d * 2 ^ k + c / 2 = omega (arith, pow_step k d) in
    let v1 : v % 2 ≡ a % 2 = omega (arith, pow_step k b) in
    let w1 : w % 2 ≡ c % 2 = omega (arith, pow_step k d) in
    let (rest, small) =
      bit_or-parts k b (a / 2) d (c / 2) (omega (arith, pow-suc 2 k))
        (omega (arith, pow-suc 2 k)) in
    let top : bit_or v w ≡ max (v % 2) (w % 2) + 2 * bit_or (v / 2) (w / 2) = bit_or-half v w in
    let low : bit_or a c ≡ max (a % 2) (c % 2) + 2 * bit_or (a / 2) (c / 2) = bit_or-half a c in
    (
      rw (top, v2, w2, v1, w1, rest, low) (omega (arith, pow_step k (bit_or b d))),
      omega (arith, low, small, pow-suc 2 k),
    )

pub bit_or-zero : (w : ℕ) → bit_or w 0 ≡ w
bit_or-zero w = nothing_added w w (lt_pow w)
