-- ===== src/Strings/Copy.antt =====
-- strcpy and strcat.
use pzos.Base.{ℕ, zero, suc, ◌+◌, ◌<◌, ◌≡◌, refl, ◌∙◌}
use pzos.Base.{some, arith}
use pzos.Memory.{Bytes, store, store1}
use pzos.Memory.Copy.{copied, IsForward}
use pzos.Strings.{copy_string, strcpy, strcat}
use pzos.Strings.Length.{IsString, IsString-rest, first_char, no_char, find_end-length}

-- A copy of the first character leaves the rest of the string as it is.
pub IsString-store1 :
    (d s n : ℕ) (m : Bytes)
    → IsForward d s (suc n + 1)
    → IsString s (suc n) m
    → IsString (s + 1) n (store1 d s m)
IsString-store1 d s n m way str =
    let (chars, end) = IsString-rest s n m str in
    (λ i lt. ground (arith, chars i lt), ground (arith, end))

pub copied-first :
    (d s n : ℕ) (m : Bytes) (j : ℕ)
    → IsForward d s (suc n)
    → copied (d + 1) (s + 1) n (store1 d s m) j ≡ copied d s (suc n) m j
copied-first d s n m j way = ground arith

pub copy_string-copied :
    (f n d s : ℕ) (m : Bytes)
    → IsString s n m
    → IsForward d s (n + 1)
    → n < f
    → (u : Bytes) × (copy_string f d s m ≡ some u) × ((j : ℕ) → u j ≡ copied d s (n + 1) m j)
unfolding copy_string
copy_string-copied zero n d s m str way fuel = absurd (omega arith)
copy_string-copied (suc f) zero d s m str way fuel =
    (store d 0 m, rw (no_char s m str) refl, λ j. ground (arith, str.1))
copy_string-copied (suc f) (suc n) d s m str way fuel =
    let (u, e, same) =
      copy_string-copied f n (d + 1) (s + 1) (store1 d s m) (IsString-store1 d s n m way str)
        (ground arith) (omega arith) in
    (
      u,
      rw (first_char s n m str) e,
      λ j. same j ∙ copied-first d s (n + 1) m j (ground arith) ∙ ground arith,
    )

-- strcpy copies a string with its terminator and nothing more, if the destination does not begin
-- inside the string, behind its start.
pub strcpy-copied :
    (f n d s : ℕ) (m : Bytes)
    → IsString s n m
    → IsForward d s (n + 1)
    → n < f
    → (u : Bytes) × (strcpy f d s m ≡ some u) × ((j : ℕ) → u j ≡ copied d s (n + 1) m j)
unfolding strcpy
strcpy-copied f n d s m str way fuel = copy_string-copied f n d s m str way fuel

-- strcat copies a string with its terminator to the end of another, if the end is not inside the
-- string that is copied, behind its start.
pub strcat-copied :
    (f k n d s : ℕ) (m : Bytes)
    → IsString d k m
    → IsString s n m
    → IsForward (d + k) s (n + 1)
    → k < f
    → n < f
    → (u : Bytes) × (strcat f d s m ≡ some u) × ((j : ℕ) → u j ≡ copied (d + k) s (n + 1) m j)
unfolding strcat
strcat-copied f k n d s m dest str way fuel_k fuel_n =
    let (u, e, same) = copy_string-copied f n (d + k) s m str way fuel_n in
    (u, rw (strcat, find_end-length f k d m dest fuel_k) e, same)
