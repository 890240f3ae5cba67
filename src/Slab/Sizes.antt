-- ===== src/Slab/Sizes.antt =====
-- The sizes of objects.
use pzos.Base.{ℕ, ◌*◌, ◌%◌, ◌≤◌, ◌<◌, ◌≡◌, ◌⊎◌, refl, Bool, true, ◌&&◌, ◌||◌}
use pzos.Base.{arith, ltb, leb, ◌==◌, all_below, all_below_sound}
use pzos.Mman.{page_size}
use pzos.Slab.{round_size, double_from}

abbrev fits : ℕ → Bool
fits s =
    s == 0
    || (leb s (round_size s)
        && ((round_size s == 8 || ltb (round_size s) (2 * s)) && page_size % round_size s == 0))

fits_table : all_below 2049 fits ≡ true
unfolding round_size double_from
fits_table = refl

-- A slab for objects of up to half a page has a size that is enough, less than twice what was asked
-- for unless it is the least size, and a divisor of the page size.
pub round_size-fits :
    (obj_size : ℕ)
    → 1 ≤ obj_size
    → obj_size ≤ 2048
    → (obj_size ≤ round_size obj_size)
      × ((round_size obj_size ≡ 8) ⊎ (round_size obj_size < 2 * obj_size))
      × (page_size % round_size obj_size ≡ 0)
round_size-fits s some_size small =
    let one : fits s ≡ true = all_below_sound 2049 fits s fits_table (omega arith) in
    (ground (arith, one), ground (arith, one), ground (arith, one))
