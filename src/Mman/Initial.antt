-- ===== src/Mman/Initial.antt =====
-- kernel/arch/x86_64/mman.c, mman_init: which pages are free before the page tables are made.
use pzos.Base.{ℕ, ◌+◌, ◌*◌, ◌/◌, ◌%◌, ◌^◌, ◌<◌, ◌≤◌, ◌≡◌, ◌⊎◌, inl, inr, max, refl, subst}
use pzos.Base.{Bool, true, ◌&&◌, not, arith, List, [], ◌∷◌, ltb, if◌then◌else◌, Bool-cases, some}
use pzos.Mman.{Pages, lowmem_size, max_page}
use pzos.Mman.Bitmap.{is_free, within}
use pzos.Mman.Startup.{
  Region, is_usable, is_counted, mem_size, reserve_for, find_place, fill_bitmap, clear_bitmap,
  push_regions, init_pages,
}
use pzos.Mman.Filling.{is_usable_page, is_free-clear_bitmap}
use pzos.Mman.Pushing.{
  Fits, AllFit, on_stack, has_entry, on_stack-push_regions, is_free-push_regions,
}

-- What the boot protocol guarantees of a usable region, with memory of at most 2 ^ 44 bytes.
pub record IsRegular (r : Region) : Type 0 where
  pub base_aligned : r.base % 0x1000 ≡ 0
  pub length_aligned : r.length % 0x1000 ≡ 0
  pub nonempty : 0 < r.length
  pub bounded : r.base + r.length ≤ 2 ^ 44

abbrev pub AreApart : Region → Region → Type 0
AreApart r q = (r.base + r.length ≤ q.base) ⊎ (q.base + q.length ≤ r.base)

unfoldable pub IsAway : Region → List Region → Type 0
IsAway r [] = Unit
IsAway r (q ∷ qs) = (is_usable q.kind ≡ true → AreApart r q) × IsAway r qs

-- The usable regions are regular and do not overlap.
unfoldable pub IsMap : List Region → Type 0
unfolding IsAway
IsMap [] = Unit
IsMap (r ∷ rs) = (is_usable r.kind ≡ true → IsRegular r × IsAway r rs) × IsMap rs

mem_size-lt : (rs : List Region) (n : ℕ) → n < 2 ^ 64 → mem_size rs n < 2 ^ 64
unfolding mem_size
mem_size-lt [] n lt = lt
mem_size-lt (r ∷ rs) n lt =
    mem_size-lt rs (if is_counted r.kind then (n + r.length) % 2 ^ 64 else n) (ground arith)

reserve-bounds : (size : ℕ) → size < 2 ^ 64 → (0 < reserve_for size) × (reserve_for size < 2 ^ 43)
reserve-bounds size lt = (omega arith, omega arith)

module _ (reserve : ℕ) (some_reserved : 0 < reserve) (few : reserve < 2 ^ 43) where
  -- The bytes from `place` that are reserved do not meet the region.
  abbrev Clear : ℕ → Region → Type 0
  Clear place r = (r.base + r.length ≤ place) ⊎ (place + reserve * 0x1000 ≤ r.base)

  clear-Fits :
      (place : ℕ) (r : Region)
      → place % 0x1000 ≡ 0
      → (is_usable r.kind ≡ true → IsRegular r × Clear place r)
      → Fits (place / 0x1000) reserve r
  clear-Fits place r aligned clear good =
      let (reg, way) = clear good in
      let base : r.base % 0x1000 ≡ 0 = reg.base_aligned in
      let length : r.length % 0x1000 ≡ 0 = reg.length_aligned in
      let some_bytes : 0 < r.length = reg.nonempty in
      let low : r.base + r.length ≤ 2 ^ 44 = reg.bounded in
      (omega arith, elim way [ inl a ↦ inr (inl (omega arith)) | inr b ↦ inr (inr (omega arith)) ])

  -- The place is in one of the regions.
  record IsPlace (rs : List Region) (place : ℕ) : Type 0 where
    high : lowmem_size ≤ place
    aligned : place % 0x1000 ≡ 0
    clear : (r : Region) → IsAway r rs → Clear place r
    fit : AllFit (place / 0x1000) reserve rs

  away-AllFit :
      (q : Region) (rs : List Region)
      → (is_usable q.kind ≡ true)
      → max q.base lowmem_size + reserve * 0x1000 < q.base + q.length
      → q.base % 0x1000 ≡ 0
      → IsAway q rs
      → IsMap rs
      → AllFit (max q.base lowmem_size / 0x1000) reserve rs
  unfolding IsAway IsMap AllFit
  away-AllFit q [] good room aligned away regular = tt
  away-AllFit q (r ∷ rs) good room aligned (apart, away) (regular, rest) = (
    clear-Fits (max q.base lowmem_size) r (omega arith) (λ u.
        ((regular u).0, elim (apart u) [ inl a ↦ inr (omega arith) | inr b ↦ inl (omega arith) ])),
    away-AllFit q rs good room aligned away rest,
  )

  here-IsPlace :
      (r : Region) (rs : List Region)
      → is_usable r.kind ≡ true
      → IsRegular r
      → IsAway r rs
      → IsMap rs
      → max r.base lowmem_size + reserve * 0x1000 < r.base + r.length
      → IsPlace (r ∷ rs) (max r.base lowmem_size)
  unfolding IsAway AllFit
  here-IsPlace r rs good reg away rest room =
      let base : r.base % 0x1000 ≡ 0 = reg.base_aligned in
      let length : r.length % 0x1000 ≡ 0 = reg.length_aligned in
      let low : r.base + r.length ≤ 2 ^ 44 = reg.bounded in
      record {
        high = omega arith;
        aligned = omega arith;
        clear = λ q a. elim (a.0 good) [ inl b ↦ inl (omega arith) | inr b ↦ inr (omega arith) ];
        fit = (
          λ u. (omega arith, inl (omega arith, omega arith)),
          away-AllFit r rs good room base away rest,
        );
      }

  below-IsPlace :
      (r : Region) (rs : List Region) (place : ℕ)
      → (is_usable r.kind ≡ true → IsRegular r × IsAway r rs)
      → IsPlace rs place
      → IsPlace (r ∷ rs) place
  unfolding IsAway AllFit
  below-IsPlace r rs place regular p = record {
    high = p.high;
    aligned = p.aligned;
    clear = λ q a. p.clear q a.1;
    fit = (clear-Fits place r p.aligned (λ u. ((regular u).0, p.clear r (regular u).1)), p.fit);
  }

  find_place-IsPlace :
      (rs : List Region) (place : ℕ)
      → IsMap rs
      → find_place reserve rs ≡ some place
      → IsPlace rs place
  unfolding find_place IsMap
  find_place-IsPlace [] place regular found = absurd (ground arith)
  find_place-IsPlace (r ∷ rs) place (regular, rest) found = elim (Bool-cases (is_usable r.kind)) [
    | inr other ↦ below-IsPlace r rs place regular (find_place-IsPlace rs place rest (ground arith))
    | inl good ↦
        let (reg, away) = regular good in
        let low : r.base + r.length ≤ 2 ^ 44 = reg.bounded in
        elim (split (max r.base lowmem_size + reserve * 0x1000) (r.base + r.length)) [
          | inr full ↦
              below-IsPlace r rs place regular (find_place-IsPlace rs place rest (ground arith))
          | inl room ↦
              let here : max r.base lowmem_size ≡ place = ground arith in
              subst (IsPlace (r ∷ rs)) here (here-IsPlace r rs good reg away rest room)
        ]
  ]
    where
      split : (a b : ℕ) → (a < b) ⊎ (b ≤ a)
      split a b = ground arith

-- Page `p` can be handed out.
abbrev pub is_available : Pages → ℕ → Bool
is_available s p = if ltb p max_page then is_free s.words p else on_stack s p

-- For a memory map whose usable regions are page aligned, not empty, below 2 ^ 44 and do not overlap, and
-- in which the loop finds a place for the bitmap and the page stack, the allocator starts with the
-- usable pages without the reserved ones, and with no other page.
pub init_pages-is_available :
    (rs : List Region) (ws : ℕ → ℕ) (place : ℕ)
    → IsMap rs
    → find_place (reserve_for (mem_size rs 0)) rs ≡ some place
    → (t : Pages) × (init_pages rs ws ≡ some t)
      × ((p : ℕ)
          → is_available t p ≡ (
              is_usable_page rs p && not (within (place / 0x1000) (reserve_for (mem_size rs 0)) p)))
unfolding init_pages has_entry
init_pages-is_available rs ws place regular found =
    let reserve = reserve_for (mem_size rs 0) in
    let first = place / 0x1000 in
    let (some_reserved, few) = reserve-bounds (mem_size rs 0) (mem_size-lt rs 0 (omega arith)) in
    let good = find_place-IsPlace reserve some_reserved few rs place regular found in
    let high : lowmem_size ≤ place = good.high in
    let room : 1 < first = omega arith in
    let s : Pages = record { words = fill_bitmap rs (clear_bitmap ws); depth = 0 } in
    (
      push_regions first reserve rs s,
      rw (init_pages, found) refl,
      λ p. elim (split p max_page) [
        | inl low ↦ ground (
          arith,
          is_free-push_regions first reserve some_reserved room rs s p low,
          is_free-clear_bitmap rs ws p low,
        )
        | inr above ↦
            ground (arith, on_stack-push_regions first reserve some_reserved room rs s p good.fit)
      ],
    )
  where
    split : (a b : ℕ) → (a < b) ⊎ (b ≤ a)
    split a b = ground arith
