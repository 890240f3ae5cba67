-- ===== src/Strings/Tests.antt =====
-- Runs of the string functions, and their theorems on two strings in memory.
use pzos.Base.{ℕ, ◌+◌, ◌-◌, ◌≤◌, ◌<◌, ◌≡◌, ◌⊎◌, ◌↔◌, inr, refl, true, false}
use pzos.Base.{none, some, arith, ◌==◌, ◌&&◌, ltb, leb, if◌then◌else◌}
use pzos.Base.Int.{pos, negsuc, sub_ℕ}
use pzos.Memory.{Bytes}
use pzos.Memory.Copy.{copied}
use pzos.Memory.Compare.{Agree}
use pzos.Strings.{strlen, strcpy, strncpy, strcat, strncat, strcmp, strncmp, strchr}
use pzos.Strings.Length.{IsString, strlen-length}
use pzos.Strings.Copy.{strcpy-copied, strcat-copied}
use pzos.Strings.Limit.{strncpy-limit, strncpy-overflow, strncat-limit}
use pzos.Strings.Compare.{StopsAt, strcmp-stops, strcmp-equal, strncmp-stops}
use pzos.Strings.Search.{IsWithout, strchr-first}

-- "abc" at 10 and "ab" at 20, among zeros.
abbrev two_strings : Bytes
two_strings j =
    if leb 10 j && ltb j 13
    then j - 10 + b'a'
    else if leb 20 j && ltb j 22
    then j - 20 + b'a'
    else 0

abc-IsString : IsString 10 3 two_strings
abc-IsString = (λ i lt. ground arith, refl)

ab-IsString : IsString 20 2 two_strings
ab-IsString = (λ i lt. ground arith, refl)

compare_runs :
    (strcmp 9 10 20 two_strings ≡ some (pos b'c'))
    × (strcmp 9 20 10 two_strings ≡ some (negsuc (b'c' - 1)))
    × (strncmp 9 10 20 2 two_strings ≡ some (pos 0))
    × (strchr 9 10 b'b' two_strings ≡ some (some 11))
    × (strchr 9 10 0 two_strings ≡ some none)
unfolding strcmp strncmp strchr
compare_runs = (refl, refl, refl, refl, refl)

strlen_test : strlen 9 10 two_strings ≡ some 3
strlen_test = strlen-length 9 3 10 two_strings abc-IsString (omega arith)

strcpy_test :
    (u : Bytes) × (strcpy 9 40 10 two_strings ≡ some u)
    × ((j : ℕ) → u j ≡ copied 40 10 4 two_strings j)
strcpy_test = strcpy-copied 9 3 40 10 two_strings abc-IsString (inr (omega arith)) (omega arith)

strcat_test :
    (u : Bytes) × (strcat 9 20 10 two_strings ≡ some u)
    × ((j : ℕ) → u j ≡ copied 22 10 4 two_strings j)
strcat_test =
    strcat-copied 9 2 3 20 10 two_strings ab-IsString abc-IsString (inr (omega arith)) (omega arith)
      (omega arith)

strncpy-limit_test :
    (u : Bytes) × (strncpy 9 40 10 2 two_strings ≡ some u)
    × ((j : ℕ)
        → u j ≡ (
            if (42 == j) && (if 3 == 2 then false else true)
            then 0
            else copied 40 10 2 two_strings j))
strncpy-limit_test =
    strncpy-limit 9 3 40 10 2 two_strings abc-IsString (inr (omega arith)) (omega arith)

strncpy_test : (u : Bytes) × (strncpy 9 40 10 2 two_strings ≡ some u) × (u 42 ≡ 0)
strncpy_test =
    strncpy-overflow 9 3 40 10 2 two_strings abc-IsString (inr (omega arith)) (omega arith)
      (omega arith)

strncat_test :
    (u : Bytes) × (strncat 9 20 10 2 two_strings ≡ some u)
    × ((j : ℕ) → u j ≡ (if 24 == j then 0 else copied 22 10 2 two_strings j))
strncat_test =
    strncat-limit 9 2 3 20 10 2 two_strings ab-IsString abc-IsString (inr (omega arith))
      (omega arith) (omega arith)

strcmp_test :
    (k : ℕ) × (k ≤ 3)
    × StopsAt 10 20 k two_strings
    × (strcmp 9 10 20 two_strings ≡ some (sub_ℕ (two_strings (10 + k)) (two_strings (20 + k))))
strcmp_test = strcmp-stops 9 3 10 20 two_strings abc-IsString (omega arith)

strcmp-equal_test : (strcmp 9 10 20 two_strings ≡ some (pos 0)) ↔ Agree 10 20 4 two_strings
strcmp-equal_test = strcmp-equal 9 3 10 20 two_strings abc-IsString (omega arith)

strncmp_test :
    ((k : ℕ) × (k ≤ 3)
      × (k < 2)
      × StopsAt 10 20 k two_strings
      × (strncmp 9 10 20 2 two_strings
          ≡ some (sub_ℕ (two_strings (10 + k)) (two_strings (20 + k)))))
    ⊎ (Agree 10 20 2 two_strings × (strncmp 9 10 20 2 two_strings ≡ some (pos 0)))
strncmp_test = strncmp-stops 9 3 10 20 2 two_strings abc-IsString (omega arith)

strchr-first_test :
    (IsWithout b'c' 10 3 two_strings × (strchr 9 10 b'c' two_strings ≡ some none))
    ⊎ ((k : ℕ) × (k < 3)
        × IsWithout b'c' 10 k two_strings
        × (two_strings (10 + k) ≡ b'c')
        × (strchr 9 10 b'c' two_strings ≡ some (some (10 + k))))
strchr-first_test = strchr-first 9 3 10 b'c' two_strings abc-IsString (omega arith)
