-- ===== src/Mman/Reclaiming.antt =====
-- kernel/arch/x86_64/mman.c, mman_init: the last loop, which frees the pages of the boot loader.
use pzos.Base.{ℕ, zero, suc, ◌+◌, ◌-◌, ◌/◌, ◌^◌, ◌<◌, ◌≤◌, ◌≡◌, inl, inr, refl, ◌∙◌}
use pzos.Base.{Bool, true, false, ◌&&◌, ◌||◌, not, arith, List, [], ◌∷◌, ltb, ◌==◌, Bool-cases}
use pzos.Mman.{Pages, entry, mark_free, max_page}
use pzos.Mman.Bitmap.{within, is_free-mark_free}
use pzos.Mman.Entries.{is_free-set_entry}
use pzos.Mman.Startup.{
  Region, is_reclaimable, start_page, end_page, give_back, reclaim_pages, reclaim,
}
use pzos.Mman.Filling.{covers}
use pzos.Mman.Pushing.{has_entry, on_stack-push_page}
use pzos.Mman.Initial.{is_available}

-- Page `p` is in a region that the boot loader gives back.
unfoldable pub is_reclaimable_page : List Region → ℕ → Bool
is_reclaimable_page [] p = false
is_reclaimable_page (r ∷ rs) p = is_reclaimable r.kind && covers r p || is_reclaimable_page rs p

has_entry-mark_free :
    (n j : ℕ) (ws : ℕ → ℕ) (p : ℕ)
    → j < max_page
    → has_entry n (mark_free ws j) p ≡ has_entry n ws p
unfolding has_entry
has_entry-mark_free zero j ws p lt = refl
has_entry-mark_free (suc n) j ws p lt =
    let same : entry (mark_free ws j) n ≡ entry ws n = unfold entry mark_free in ground arith in
    ground (arith, same, has_entry-mark_free n j ws p lt)

is_available-give_back :
    (top j : ℕ) (s : Pages) (p : ℕ)
    → j < 2 ^ 32
    → is_available (give_back top j s) p ≡ (is_available s p || p == j && not (p == top))
is_available-give_back top j s p small = elim (Bool-cases (j == top)) [
  | inl kept ↦ ground arith
  | inr other ↦ elim (Bool-cases (ltb j max_page)) [
    | inl low ↦ ground (
      arith,
      is_free-mark_free s.words j p,
      has_entry-mark_free s.depth j s.words p (ground arith),
    )
    | inr high ↦
        ground (arith, on_stack-push_page j s p small, is_free-set_entry s.words s.depth j p)
  ]
]

is_available-reclaim_pages :
    (top n j : ℕ) (s : Pages) (p : ℕ)
    → j + n ≤ 2 ^ 32
    → is_available (reclaim_pages top n j s) p
      ≡ (is_available s p || within j n p && not (p == top))
unfolding reclaim_pages
is_available-reclaim_pages top zero j s p small = ground arith
is_available-reclaim_pages top (suc n) j s p small =
    is_available-reclaim_pages top n (j + 1) (give_back top j s) p (omega arith)
    ∙ ground (arith, is_available-give_back top j s p (omega arith))

-- The regions that the boot loader gives back are not empty, and end below 2 ^ 44.
unfoldable pub AreSmall : List Region → Type 0
AreSmall [] = Unit
AreSmall (r ∷ rs) =
    (is_reclaimable r.kind ≡ true → (start_page r ≤ end_page r) × (end_page r < 2 ^ 32))
    × AreSmall rs

-- The last loop of mman_init makes the pages that the boot loader gives back available, but for page
-- `top`, and no other page. The regions are not empty and end below 2 ^ 44.
pub is_available-reclaim :
    (top : ℕ) (rs : List Region) (s : Pages) (p : ℕ)
    → AreSmall rs
    → is_available (reclaim top rs s) p
      ≡ (is_available s p || is_reclaimable_page rs p && not (p == top))
unfolding reclaim is_reclaimable_page AreSmall
is_available-reclaim top [] s p small = ground arith
is_available-reclaim top (r ∷ rs) s p (small, rest) = elim (Bool-cases (is_reclaimable r.kind)) [
  | inr other ↦ rw (reclaim, is_reclaimable_page, other) (is_available-reclaim top rs s p rest)
  | inl good ↦
      let (ordered, few) = small good in
      let n = end_page r + 1 - start_page r in
      let more = reclaim_pages top n (start_page r) s in
      let pages = is_available-reclaim_pages top n (start_page r) s p (omega arith) in
      rw (reclaim, is_reclaimable_page, good)
        (is_available-reclaim top rs more p rest ∙ ground (arith, pages))
]

-- The loop compares the page number with that of stack_base, which is a virtual address. Where the
-- direct map is at or above 2 ^ 44 that is no page of memory, so each page of the boot loader becomes
-- available, the one under the stack too.
pub reclaim-stack :
    (stack_base : ℕ) (rs : List Region) (s : Pages) (p : ℕ)
    → AreSmall rs
    → 2 ^ 44 ≤ stack_base
    → p < 2 ^ 32
    → is_reclaimable_page rs p ≡ true
    → is_available (reclaim (stack_base / 0x1000) rs s) p ≡ true
reclaim-stack stack_base rs s p small virtual page given =
    ground (arith, is_available-reclaim (stack_base / 0x1000) rs s p small)
