-- ===== src/Mman/Entries.antt =====
-- The page stack as an array of 32-bit entries, and its place behind the bitmap.
use pzos.Base.{ℕ, ◌%◌, ◌^◌, ◌<◌, ◌≡◌, arith, ◌==◌, if◌then◌else◌}
use pzos.Mman.{entry, set_entry, max_page}
use pzos.Mman.Bitmap.{is_free}

pub entry-set_entry :
    (ws : ℕ → ℕ) (k v j : ℕ)
    → entry (set_entry ws k v) j ≡ (if k == j then v % 2 ^ 32 else entry ws j)
unfolding entry set_entry
entry-set_entry ws k v j = ground arith

-- A push writes behind the bitmap, and changes no bit of it.
pub is_free-set_entry :
    (ws : ℕ → ℕ) (k v q : ℕ) → q < max_page → is_free (set_entry ws k v) q ≡ is_free ws q
unfolding set_entry
is_free-set_entry ws k v q h = ground arith
