-- ===== src/Mman/Bitmap.antt =====
-- The bitmap as a set of free pages.
use pzos.Base.{ℕ, zero, suc, ◌+◌, ◌/◌, ◌%◌, ◌^◌}
use pzos.Base.{
  ◌≡◌, ◌⊎◌, ◌≢◌, inl, inr, Bool, true, false, ◌&&◌, arith, ◌==◌, leb, ltb, if◌then◌else◌,
  Bool-cases,
}
use pzos.Base.Bits.{test, test-or, test-and, test-pow, test-all_but, all_but, masked}
use pzos.Mman.{mark_free, mark_used, window_free, use_window, free_window}

-- Page `p` is free: bit `p % 64` of word `p / 64` is set.
abbrev pub is_free : (ℕ → ℕ) → ℕ → Bool
is_free ws p = test (ws (p / 64)) (p % 64)

-- `q` lies in the `n` pages from `p`.
abbrev pub within : ℕ → ℕ → ℕ → Bool
within p n q = leb p q && ltb q (p + n)

pub is_free-mark_free :
    (ws : ℕ → ℕ) (p q : ℕ) → is_free (mark_free ws p) q ≡ (if p == q then true else is_free ws q)
unfolding mark_free
is_free-mark_free ws p q =
    ground (arith, test-or (ws (p / 64)) (2 ^ (p % 64)) (q % 64), test-pow (p % 64) (q % 64))

pub is_free-mark_used :
    (ws : ℕ → ℕ) (p q : ℕ) → is_free (mark_used ws p) q ≡ (if p == q then false else is_free ws q)
unfolding mark_used
is_free-mark_used ws p q =
    ground
      (arith, test-and (ws (p / 64)) (all_but (p % 64)) (q % 64), test-all_but (p % 64) (q % 64))

pub is_free-use_window :
    (n p : ℕ) (ws : ℕ → ℕ) (q : ℕ)
    → is_free (use_window n p ws) q ≡ (if within p n q then false else is_free ws q)
unfolding use_window
is_free-use_window zero p ws q = ground arith
is_free-use_window (suc n) p ws q =
    ground (arith, is_free-use_window n (p + 1) (mark_used ws p) q, is_free-mark_used ws p q)

pub is_free-free_window :
    (n p : ℕ) (ws : ℕ → ℕ) (q : ℕ)
    → is_free (free_window n p ws) q ≡ (if within p n q then true else is_free ws q)
unfolding free_window
is_free-free_window zero p ws q = ground arith
is_free-free_window (suc n) p ws q =
    ground (arith, is_free-free_window n (p + 1) (mark_free ws p) q, is_free-mark_free ws p q)

-- The loop of alloc_aligned finds whether all pages of the window are free.
pub window_free_sound :
    (n p : ℕ) (ws : ℕ → ℕ) (q : ℕ)
    → window_free n p ws ≡ true
    → within p n q ≡ true
    → is_free ws q ≡ true
unfolding window_free
window_free_sound zero p ws q h i = ground arith
window_free_sound (suc n) p ws q h i =
    ground (arith, masked (ws (p / 64)) (p % 64), window_free_sound n (p + 1) ws q, split p q)
  where
    split : (p q : ℕ) → (p ≡ q) ⊎ (p ≢ q)
    split p q = ground arith

pub window_free_complete :
    (n p : ℕ) (ws : ℕ → ℕ)
    → window_free n p ws ≡ false
    → (q : ℕ) × (within p n q ≡ true) × (is_free ws q ≡ false)
unfolding window_free
window_free_complete zero p ws h = absurd (ground arith)
window_free_complete (suc n) p ws h = elim (Bool-cases (is_free ws p)) [
  | inl free ↦
      let (q, i, used) =
        window_free_complete n (p + 1) ws (ground (arith, masked (ws (p / 64)) (p % 64))) in
      (q, ground arith, used)
  | inr used ↦ (p, ground arith, used)
]
