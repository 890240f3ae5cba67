-- ===== src/Strings/Length.antt =====
-- Strings in memory, and strlen.
use pzos.Base.{ℕ, zero, suc, ◌+◌, ◌<◌, ◌≡◌, ◌≢◌, true, false, some, arith}
use pzos.Base.{◌==◌, ◌∙◌}
use pzos.Memory.{Bytes}
use pzos.Strings.{strlen, strlen_from, find_end}

-- `n` characters from `s` on, and the terminator behind them.
abbrev pub IsString : ℕ → ℕ → Bytes → Type 0
IsString s n m = ((i : ℕ) → i < n → m (s + i) ≢ 0) × (m (s + n) ≡ 0)

pub IsString-rest : (s n : ℕ) (m : Bytes) → IsString s (suc n) m → IsString (s + 1) n m
IsString-rest s n m (chars, end) = (
  λ i lt. (let e : s + 1 + i ≡ s + suc i = omega arith in rw e (chars (suc i) (omega arith))),
  (let e : s + 1 + n ≡ s + suc n = omega arith in rw e end),
)

pub first_char : (s n : ℕ) (m : Bytes) → IsString s (suc n) m → (m s == 0) ≡ false
first_char s n m (chars, end) = ground (arith, chars 0 (omega arith))

pub no_char : (s : ℕ) (m : Bytes) → IsString s 0 m → (m s == 0) ≡ true
no_char s m (chars, end) = ground (arith, end)

strlen_from-length :
    (f n s len : ℕ) (m : Bytes)
    → IsString (s + len) n m
    → n < f
    → strlen_from f s len m ≡ some (len + n)
unfolding strlen_from
strlen_from-length zero n s len m str fuel = absurd (omega arith)
strlen_from-length (suc f) zero s len m str fuel = rw (no_char (s + len) m str) (ground arith)
strlen_from-length (suc f) (suc n) s len m str fuel =
    let rest : IsString (s + (len + 1)) n m =
      (let e : s + (len + 1) ≡ s + len + 1 = omega arith in
        rw e (IsString-rest (s + len) n m str)) in
    let e : len + suc n ≡ len + 1 + n = omega arith in
    rw (first_char (s + len) n m str, e) (strlen_from-length f n s (len + 1) m rest (omega arith))

-- strlen gives the number of characters before the terminator, with fuel above it.
pub strlen-length : (f n s : ℕ) (m : Bytes) → IsString s n m → n < f → strlen f s m ≡ some n
unfolding strlen
strlen-length f n s m str fuel =
    let at : IsString (s + 0) n m = (let e : s + 0 ≡ s = omega arith in rw e str) in
    strlen_from-length f n s 0 m at fuel ∙ ground arith

pub find_end-length :
    (f n d : ℕ) (m : Bytes) → IsString d n m → n < f → find_end f d m ≡ some (d + n)
unfolding find_end
find_end-length zero n d m str fuel = absurd (omega arith)
find_end-length (suc f) zero d m str fuel = rw (no_char d m str) (ground arith)
find_end-length (suc f) (suc n) d m str fuel =
    let e : d + suc n ≡ d + 1 + n = omega arith in
    rw (first_char d n m str, e)
      (find_end-length f n (d + 1) m (IsString-rest d n m str) (omega arith))
