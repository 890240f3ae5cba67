-- ===== src/Strings/Limit.antt =====
-- strncpy and strncat.
use pzos.Base.{ℕ, zero, suc, ◌+◌, ◌-◌, ◌^◌, ◌<◌, ◌≡◌, refl, ◌∙◌, true, false, min}
use pzos.Base.{some, arith, ◌==◌, if◌then◌else◌, leb, ◌&&◌}
use pzos.Memory.{Bytes, store, store1}
use pzos.Memory.Copy.{copied, IsForward}
use pzos.Strings.{Limited, copy_limited, strncpy, strncat}
use pzos.Strings.Length.{IsString, first_char, no_char, find_end-length}
use pzos.Strings.Copy.{IsString-store1, copied-first}

-- Where the loop stops, and the count that it leaves: the test of `count` wraps it if the string is
-- longer.
abbrev HasCopied : ℕ → ℕ → ℕ → ℕ → Bytes → Limited → Type 0
HasCopied d s n count m l =
    (l.d ≡ d + min n count)
    × (l.count ≡ (if leb n count then count - n else 2 ^ 64 - 1))
    × ((j : ℕ) → l.memory j ≡ copied d s (min n count) m j)

copy_limited-copied :
    (f n d s count : ℕ) (m : Bytes)
    → IsString s n m
    → IsForward d s (n + 1)
    → n < f
    → (l : Limited) × (copy_limited f d s count m ≡ some l) × HasCopied d s n count m l
unfolding copy_limited
copy_limited-copied zero n d s count m str way fuel = absurd (omega arith)
copy_limited-copied (suc f) zero d s count m str way fuel = (
  record { d = d; count = count; memory = m },
  rw (no_char s m str) refl,
  (omega arith, ground arith, λ j. ground arith),
)
copy_limited-copied (suc f) (suc n) d s zero m str way fuel = (
  record { d = d; count = 2 ^ 64 - 1; memory = m },
  rw (first_char s n m str) refl,
  (omega arith, ground arith, λ j. ground arith),
)
copy_limited-copied (suc f) (suc n) d s (suc c) m str way fuel =
    let (l, e, (at, left, same)) =
      copy_limited-copied f n (d + 1) (s + 1) c (store1 d s m) (IsString-store1 d s n m way str)
        (ground arith) (omega arith) in
    (
      l,
      (let more : (suc c == 0) ≡ false = ground arith in
          let less : suc c - 1 ≡ c = omega arith in rw (first_char s n m str, more, less) e),
      (
        omega (arith, at),
        left ∙ ground arith,
        λ j. same j ∙ copied-first d s (min n c) m j (ground arith) ∙ ground arith,
      ),
    )

-- strncpy of a string of `n` characters copies at most `count` of them. It then writes a terminator
-- behind them unless the string has exactly `count` characters: also where it is longer, and the
-- terminator stands one behind the `count` bytes.
pub strncpy-limit :
    (f n d s count : ℕ) (m : Bytes)
    → IsString s n m
    → IsForward d s (n + 1)
    → n < f
    → (u : Bytes) × (strncpy f d s count m ≡ some u)
      × ((j : ℕ)
          → u j ≡ (
              if (d + min n count == j) && (if n == count then false else true)
              then 0
              else copied d s (min n count) m j))
unfolding strncpy
strncpy-limit f n d s count m str way fuel =
    let (l, e, (at, left, same)) = copy_limited-copied f n d s count m str way fuel in
    (
      (if l.count == 0 then l.memory else store l.d 0 l.memory),
      rw (strncpy, e) refl,
      λ j. ground (arith, at, left, same j),
    )

-- A string longer than `count` makes strncpy write outside the `count` bytes of its destination.
pub strncpy-overflow :
    (f n d s count : ℕ) (m : Bytes)
    → IsString s n m
    → IsForward d s (n + 1)
    → n < f
    → count < n
    → (u : Bytes) × (strncpy f d s count m ≡ some u) × (u (d + count) ≡ 0)
strncpy-overflow f n d s count m str way fuel long =
    let (u, e, same) = strncpy-limit f n d s count m str way fuel in
    (u, e, ground (arith, same (d + count)))

-- strncat appends at most `count` characters of a string to another, and always a terminator.
pub strncat-limit :
    (f k n d s count : ℕ) (m : Bytes)
    → IsString d k m
    → IsString s n m
    → IsForward (d + k) s (n + 1)
    → k < f
    → n < f
    → (u : Bytes) × (strncat f d s count m ≡ some u)
      × ((j : ℕ)
          → u j ≡ (if d + k + min n count == j then 0 else copied (d + k) s (min n count) m j))
unfolding strncat
strncat-limit f k n d s count m dest str way fuel_k fuel_n =
    let (l, e, (at, left, same)) = copy_limited-copied f n (d + k) s count m str way fuel_n in
    (
      store l.d 0 l.memory,
      rw (strncat, find_end-length f k d m dest fuel_k, e) refl,
      λ j. ground (arith, at, same j),
    )
