-- ===== src/Mman/Filling.antt =====
-- kernel/arch/x86_64/mman.c, mman_init: the bitmap that the loop over the memory map makes.
use pzos.Base.{ℕ, zero, suc, ◌+◌, ◌-◌, ◌%◌, ◌^◌, ◌<◌, ◌≡◌, min, refl, ap, ◌∙◌}
use pzos.Base.{Bool, true, false, ◌&&◌, ◌||◌, arith, List, [], ◌∷◌, leb, ◌==◌, if◌then◌else◌}
use pzos.Base.{all_below, all_below_sound}
use pzos.Mman.{mark_free, max_page}
use pzos.Mman.Bitmap.{is_free, is_free-mark_free, within}
use pzos.Mman.Scan.{zero-test}
use pzos.Mman.Startup.{
  Region, is_usable, start_page, end_page, rol, fill_bits, fill_bitmap, clear_bitmap,
}

-- Page `p` is in the region.
abbrev pub covers : Region → ℕ → Bool
covers r p = leb (start_page r) p && leb p (end_page r)

-- Page `p` is in a usable region of the memory map.
unfoldable pub is_usable_page : List Region → ℕ → Bool
is_usable_page [] p = false
is_usable_page (r ∷ rs) p = is_usable r.kind && covers r p || is_usable_page rs p

rol_table : all_below 64 (λ k. rol (2 ^ k) == 2 ^ ((k + 1) % 64)) ≡ true
rol_table = refl

rol-pow : (j : ℕ) → rol (2 ^ (j % 64)) ≡ 2 ^ ((j + 1) % 64)
rol-pow j =
    let next : (j % 64 + 1) % 64 ≡ (j + 1) % 64 = omega arith in
    ground (
      arith,
      all_below_sound 64 (λ k. rol (2 ^ k) == 2 ^ ((k + 1) % 64)) (j % 64) rol_table (omega arith),
      ap (λ k. 2 ^ k) next,
    )

-- The rotating mask is the bit of each page.
fill_bits-mark_free :
    (n j : ℕ) (ws : ℕ → ℕ)
    → fill_bits (suc n) j (2 ^ (j % 64)) ws
      ≡ fill_bits n (j + 1) (2 ^ ((j + 1) % 64)) (mark_free ws j)
unfolding fill_bits mark_free
fill_bits-mark_free n j ws = ap (λ m. fill_bits n (j + 1) m (mark_free ws j)) (rol-pow j)

is_free-fill_bits :
    (n j : ℕ) (ws : ℕ → ℕ) (p : ℕ)
    → is_free (fill_bits n j (2 ^ (j % 64)) ws) p ≡ (within j n p || is_free ws p)
unfolding fill_bits
is_free-fill_bits zero j ws p = ground arith
is_free-fill_bits (suc n) j ws p =
    ap (λ v. is_free v p) (fill_bits-mark_free n j ws)
    ∙ (is_free-fill_bits n (j + 1) (mark_free ws j) p ∙ ground (arith, is_free-mark_free ws j p))

is_free-fill_bitmap :
    (rs : List Region) (ws : ℕ → ℕ) (p : ℕ)
    → p < max_page
    → is_free (fill_bitmap rs ws) p ≡ (is_usable_page rs p || is_free ws p)
unfolding fill_bitmap is_usable_page
is_free-fill_bitmap [] ws p low = refl
is_free-fill_bitmap (r ∷ rs) ws p low =
    let n = min (end_page r) (max_page - 1) + 1 - start_page r in
    let filled = fill_bits n (start_page r) (2 ^ (start_page r % 64)) ws in
    is_free-fill_bitmap rs (if is_usable r.kind then filled else ws) p low
    ∙ ground (arith, is_free-fill_bits n (start_page r) ws p)

-- A page of low memory is free in the new bitmap if it is in a usable region, and only then.
pub is_free-clear_bitmap :
    (rs : List Region) (ws : ℕ → ℕ) (p : ℕ)
    → p < max_page
    → is_free (fill_bitmap rs (clear_bitmap ws)) p ≡ is_usable_page rs p
is_free-clear_bitmap rs ws p low =
    is_free-fill_bitmap rs (clear_bitmap ws) p low ∙ ground (arith, zero-test (p % 64))
