-- ===== src/Strings.antt =====
-- libc/string/str.c. A loop over a string ends at its terminator; each function here takes fuel, a
-- bound on the rounds of each loop, and gives `none` when a loop runs on beyond it.
pub mod Length
pub mod Copy
pub mod Limit
pub mod Compare
pub mod Search
mod Tests
use pzos.Base.{ℕ, zero, suc, ◌+◌, ◌-◌, ◌%◌, ◌^◌, Bool, true, false, Option, none, some}
use pzos.Base.{◌==◌, ◌&&◌, not, if◌then◌else◌}
use pzos.Base.Int.{ℤ, pos, sub_ℕ}
use pzos.Memory.{Bytes, store, store1}

-- `while (s[len]) len++`, from `len` on.
unfoldable pub strlen_from : ℕ → ℕ → ℕ → Bytes → Option ℕ
strlen_from zero s len m = none
strlen_from (suc f) s len m =
    let next = strlen_from f s (len + 1) m in if m (s + len) == 0 then some len else next

unfoldable pub strlen : ℕ → ℕ → Bytes → Option ℕ
strlen f s m = strlen_from f s 0 m

-- `while (*src) *d++ = *src++; *d = '\0'`
unfoldable pub copy_string : ℕ → ℕ → ℕ → Bytes → Option Bytes
copy_string zero d src m = none
copy_string (suc f) d src m =
    let next = copy_string f (d + 1) (src + 1) (store1 d src m) in
    if m src == 0 then some (store d 0 m) else next

unfoldable pub strcpy : ℕ → ℕ → ℕ → Bytes → Option Bytes
strcpy f dest src m = copy_string f dest src m

-- `while (*src && count--) *d++ = *src++`: where it leaves `d` and `count`, a size_t.
pub record Limited : Type 0 where
  pub d : ℕ
  pub count : ℕ
  pub memory : Bytes

unfoldable pub copy_limited : ℕ → ℕ → ℕ → ℕ → Bytes → Option Limited
copy_limited zero d src count m = none
copy_limited (suc f) d src count m =
    let next = copy_limited f (d + 1) (src + 1) (count - 1) (store1 d src m) in
    if m src == 0
    then some (record { d = d; count = count; memory = m })
    else if count == 0
    then some (record { d = d; count = 2 ^ 64 - 1; memory = m })
    else next

abbrev pub end_strncpy : Limited → Bytes
end_strncpy l = if l.count == 0 then l.memory else store l.d 0 l.memory

abbrev pub end_strncat : Limited → Bytes
end_strncat l = store l.d 0 l.memory

unfoldable pub strncpy : ℕ → ℕ → ℕ → ℕ → Bytes → Option Bytes
strncpy f dest src count m = elim (copy_limited f dest src count m) [
  | none ↦ none
  | some l ↦ some (end_strncpy l)
]

-- `while (*d) d++`
unfoldable pub find_end : ℕ → ℕ → Bytes → Option ℕ
find_end zero d m = none
find_end (suc f) d m = let next = find_end f (d + 1) m in if m d == 0 then some d else next

unfoldable pub strcat : ℕ → ℕ → ℕ → Bytes → Option Bytes
strcat f dest src m = elim (find_end f dest m) [ none ↦ none | some d ↦ copy_string f d src m ]

unfoldable pub strncat : ℕ → ℕ → ℕ → ℕ → Bytes → Option Bytes
strncat f dest src count m = elim (find_end f dest m) [
  | none ↦ none
  | some d ↦ elim (copy_limited f d src count m) [ none ↦ none | some l ↦ some (end_strncat l) ]
]

unfoldable pub strcmp : ℕ → ℕ → ℕ → Bytes → Option ℤ
strcmp zero s1 s2 m = none
strcmp (suc f) s1 s2 m =
    let next = strcmp f (s1 + 1) (s2 + 1) m in
    if not (m s1 == 0) && m s1 == m s2 then next else some (sub_ℕ (m s1) (m s2))

unfoldable pub strncmp : ℕ → ℕ → ℕ → ℕ → Bytes → Option ℤ
strncmp zero s1 s2 n m = none
strncmp (suc f) s1 s2 n m =
    let next = strncmp f (s1 + 1) (s2 + 1) (n - 1) m in
    if not (n == 0) && (not (m s1 == 0) && m s1 == m s2)
    then next
    else if n == 0
    then some (pos 0)
    else some (sub_ℕ (m s1) (m s2))

-- `some none` is NULL.
unfoldable pub strchr : ℕ → ℕ → ℕ → Bytes → Option (Option ℕ)
strchr zero s c m = none
strchr (suc f) s c m =
    let next = strchr f (s + 1) c m in
    if m s == 0 then some none else if m s == c % 2 ^ 8 then some (some s) else next
