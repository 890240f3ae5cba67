-- ===== src/Memory.antt =====
-- libc/string/mem.c: memcmp, memset, memcpy and memmove. Memory is a function from addresses to bytes;
-- a pointer is an address, and a pointer before address 0, which is never read, is 0 here.
pub mod Copy
pub mod Compare
mod Tests
use pzos.Base.{
  ℕ, zero, suc, ◌+◌, ◌-◌, ◌%◌, ◌^◌, Bool, true, false, ◌&&◌, ltb, leb, ◌==◌, if◌then◌else◌,
}
use pzos.Base.Int.{ℤ, pos, sub_ℕ}

abbrev pub Bytes : Type 0
Bytes = ℕ → ℕ

-- `*p = v` for a char.
abbrev pub store : ℕ → ℕ → Bytes → Bytes
store p v m j = if p == j then v % 2 ^ 8 else m j

abbrev pub in_range : ℕ → ℕ → ℕ → Bool
in_range p n j = leb p j && ltb j (p + n)

-- `*(size_t *)d = *(const size_t *)s`
abbrev pub store8 : ℕ → ℕ → Bytes → Bytes
store8 d s m j = if in_range d 8 j then m (s + (j - d)) else m j

-- `*d = *s`
abbrev pub store1 : ℕ → ℕ → Bytes → Bytes
store1 d s m j = if d == j then m s else m j

unfoldable pub memcmp : ℕ → ℕ → ℕ → Bytes → ℤ
memcmp s1 s2 zero m = pos 0
memcmp s1 s2 (suc len) m =
    let rest = memcmp (s1 + 1) (s2 + 1) len m in if m s1 == m s2 then rest else sub_ℕ (m s1) (m s2)

unfoldable pub memset : ℕ → ℕ → ℕ → Bytes → Bytes
memset p c zero m = m
memset p c (suc n) m = memset (p + 1) c n (store p c m)

unfoldable pub copy_bytes : ℕ → ℕ → ℕ → Bytes → Bytes
copy_bytes d s zero m = m
copy_bytes d s (suc n) m = copy_bytes (d + 1) (s + 1) n (store1 d s m)

-- The first number is fuel: `n` rounds are enough for n bytes.
unfoldable pub copy_words : ℕ → ℕ → ℕ → ℕ → Bytes → Bytes
copy_words zero d s n m = copy_bytes d s n m
copy_words (suc f) d s n m =
    let next = copy_words f (d + 8) (s + 8) (n - 8) (store8 d s m) in
    if leb 8 n then next else copy_bytes d s n m

unfoldable pub memcpy : ℕ → ℕ → ℕ → Bytes → Bytes
memcpy dst src n m = copy_words n dst src n m

-- `while (rem--)`, downwards.
unfoldable pub back_bytes : ℕ → ℕ → ℕ → Bytes → Bytes
back_bytes lastd lasts zero m = m
back_bytes lastd lasts (suc rem) m = back_bytes (lastd - 1) (lasts - 1) rem (store1 lastd lasts m)

unfoldable pub back_words : ℕ → ℕ → ℕ → ℕ → Bytes → Bytes
back_words zero lastd lasts n m = m
back_words (suc f) lastd lasts n m =
    let next = back_words f (lastd - 8) (lasts - 8) (n - 8) (store8 lastd lasts m) in
    if leb 8 n then next else m

unfoldable pub memmove : ℕ → ℕ → ℕ → Bytes → Bytes
memmove dst src n m =
    let rem = n % 8 in
    let lastd = dst + n - 1 in
    let lasts = src + n - 1 in
    if ltb dst src
    then memcpy dst src n m
    else back_words n (lastd - rem - 7) (lasts - rem - 7) (n - rem) (back_bytes lastd lasts rem m)
