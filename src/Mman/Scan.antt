-- ===== src/Mman/Scan.antt =====
-- The scans of alloc_page: for a word that is not zero, and for the lowest bit of it.
use pzos.Base.{ℕ, zero, suc, ◌+◌, ◌/◌, ◌%◌, ◌^◌, ◌≤◌, ◌<◌, ◌≡◌, ◌≢◌, refl, true, false}
use pzos.Base.{none, some, arith, ◌==◌, inl, inr, Bool-cases}
use pzos.Base.Bits.{test}
use native.Mathlib.Nat.{pow-suc}
use pzos.Mman.{ctz_from, ctz, bsr_from, bsr, find_word}

ctz_from-test : (n w : ℕ) → w ≢ 0 → w < 2 ^ n → test w (ctz_from n w) ≡ true
unfolding ctz_from test
ctz_from-test zero w h lt = absurd (omega arith)
ctz_from-test (suc n) w h lt = ground (arith, pow-suc 2 n, ctz_from-test n (w / 2))

ctz_from-lowest : (n w j : ℕ) → j < ctz_from n w → test w j ≡ false
unfolding ctz_from test
ctz_from-lowest zero w j lt = absurd (omega arith)
ctz_from-lowest (suc n) w zero lt = ground arith
ctz_from-lowest (suc n) w (suc j) lt = ground (arith, ctz_from-lowest n (w / 2) j)

ctz_from-lt : (n w : ℕ) → w ≢ 0 → w < 2 ^ n → ctz_from n w < n
unfolding ctz_from
ctz_from-lt zero w h lt = absurd (omega arith)
ctz_from-lt (suc n) w h lt = ground (arith, pow-suc 2 n, ctz_from-lt n (w / 2))

module _ (w : ℕ) (nonzero : w ≢ 0) (fits : w < 2 ^ 64) where
  pub ctz-test : test w (ctz w) ≡ true
  unfolding ctz
  ctz-test = ctz_from-test 64 w nonzero fits

  pub ctz-lt : ctz w < 64
  unfolding ctz
  ctz-lt = ctz_from-lt 64 w nonzero fits

pub ctz-lowest : (w j : ℕ) → j < ctz w → test w j ≡ false
unfolding ctz
ctz-lowest w j lt = ctz_from-lowest 64 w j lt

pub ctz-odd : (w : ℕ) → w % 2 ≡ 1 → ctz w ≡ 0
unfolding ctz ctz_from
ctz-odd w h = ground arith

bsr_from-lt : (n w : ℕ) → bsr_from n w ≤ n
unfolding bsr_from
bsr_from-lt zero w = omega arith
bsr_from-lt (suc n) w = ground (arith, bsr_from-lt n (w / 2))

pub bsr-le : (w : ℕ) → bsr w ≤ 64
unfolding bsr
bsr-le w = bsr_from-lt 64 w

pub zero-test : (j : ℕ) → test 0 j ≡ false
unfolding test
zero-test zero = refl
zero-test (suc j) = zero-test j

-- The first word at or behind `i` that is not zero.
pub record IsFirst (ws : ℕ → ℕ) (i n k : ℕ) : Type 0 where
  pub from : i ≤ k
  pub upto : k < i + n
  pub found : ws k ≢ 0
  pub first : (j : ℕ) → i ≤ j → j < k → ws j ≡ 0

pub find_word-some : (n i : ℕ) (ws : ℕ → ℕ) {k : ℕ} → find_word n i ws ≡ some k → IsFirst ws i n k
unfolding find_word
find_word-some zero i ws h = absurd (ground arith)
find_word-some (suc n) i ws {k} h = elim (Bool-cases (ws i == 0)) [
  | inl empty ↦
      let r : IsFirst ws (i + 1) n k = find_word-some n (i + 1) ws (ground arith) in
      record {
        from = omega (arith, r.from);
        upto = omega (arith, r.upto);
        found = r.found;
        first = λ j a b. ground (arith, r.first j);
      }
  | inr full ↦
      let e : i ≡ k = ground arith in
      record {
        from = omega arith;
        upto = omega arith;
        found = ground arith;
        first = λ j a b. absurd (omega arith);
      }
]

-- The scan finds a word if there is one.
pub find_word-eq :
    (n i : ℕ) (ws : ℕ → ℕ) (k : ℕ)
    → i ≤ k
    → k < i + n
    → ws k ≢ 0
    → ((j : ℕ) → i ≤ j → j < k → ws j ≡ 0)
    → find_word n i ws ≡ some k
unfolding find_word
find_word-eq zero i ws k a b c first = absurd (omega arith)
find_word-eq (suc n) i ws k a b c first = ground (
  arith,
  first i,
  λ (p : i + 1 ≤ k).
      find_word-eq n (i + 1) ws k p (omega arith) c (λ j x y. first j (omega arith) y),
)

pub find_word-none :
    (n i : ℕ) (ws : ℕ → ℕ) (j : ℕ) → find_word n i ws ≡ none → i ≤ j → j < i + n → ws j ≡ 0
unfolding find_word
find_word-none zero i ws j h a b = absurd (omega arith)
find_word-none (suc n) i ws j h a b = ground (arith, find_word-none n (i + 1) ws j)
