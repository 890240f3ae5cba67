-- ===== src/Memory/Tests.antt =====
-- Runs of the functions on memory, and their theorems at concrete memories.
use pzos.Base.{ℕ, ◌+◌, ◌%◌, ◌<◌, ◌≡◌, ◌≢◌, ◌⊎◌, inr, refl, arith}
use pzos.Base.Int.{pos, negsuc, sub_ℕ}
use pzos.Memory.{
  Bytes, memcmp, memset, copy_bytes, copy_words, memcpy, back_bytes, back_words, memmove,
}
use pzos.Memory.Copy.{memcpy-copied, memmove-copied, memset-filled}
use pzos.Memory.Compare.{Agree, memcmp-first}

-- Each byte is the low byte of its address.
abbrev ramp : Bytes
ramp j = j % 256

-- Twenty bytes, three further up in memory: the ranges overlap.
memmove_runs :
    (memmove 103 100 20 ramp 103 ≡ 100)
    × (memmove 103 100 20 ramp 122 ≡ 119)
    × (memmove 103 100 20 ramp 123 ≡ 123)
    × (memmove 97 100 20 ramp 97 ≡ 100)
unfolding memmove memcpy copy_words copy_bytes back_bytes back_words
memmove_runs = (refl, refl, refl, refl)

memcmp_runs : (memcmp 10 11 3 ramp ≡ negsuc 0) × (memcmp 10 266 3 ramp ≡ pos 0)
unfolding memcmp
memcmp_runs = (refl, refl)

memcpy_test : memcpy 40 10 20 ramp 45 ≡ 15
memcpy_test = memcpy-copied 40 10 20 ramp 45 (inr (omega arith))

memmove-copied_example : memmove 103 100 20 ramp 105 ≡ 102
memmove-copied_example = memmove-copied 103 100 20 ramp 105

memset_test : memset 5 0x141 3 ramp 7 ≡ 0x41
memset_test = memset-filled 3 5 0x141 ramp 7

memcmp_test :
    (Agree 10 11 3 ramp × (memcmp 10 11 3 ramp ≡ pos 0))
    ⊎ ((k : ℕ) × (k < 3)
        × Agree 10 11 k ramp
        × (ramp (10 + k) ≢ ramp (11 + k))
        × (memcmp 10 11 3 ramp ≡ sub_ℕ (ramp (10 + k)) (ramp (11 + k))))
memcmp_test = memcmp-first 3 10 11 ramp
