-- ===== src/Mman/Aligned.antt =====
-- alloc_aligned: first fit over the multiples of `align`.
use pzos.Base.{ℕ, zero, suc, ◌+◌, ◌*◌, ◌%◌, ◌^◌, ◌≤◌, ◌<◌, ◌≡◌, ◌≢◌, ◌∙◌, sym, refl, true, false}
use pzos.Base.{arith, ◌==◌, ltb, ltb→lt, leb, if◌then◌else◌, inl, inr, Bool-cases, ◌⊎◌}
use pzos.Mman.{
  Pages, Outcome, ok, panic, max_page, window_free, use_window, aligned_from, alloc_aligned,
}
use pzos.Mman.Bitmap.{is_free, within, is_free-use_window, window_free_sound}

-- The window is inside low memory and free.
abbrev pub Fits : (ℕ → ℕ) → ℕ → ℕ → Type 0
Fits ws npages start = (start + npages ≤ max_page) × (window_free npages start ws ≡ true)

-- The page number `a` of the answer is the first multiple of `align` whose window fits.
pub record IsFirstFit (npages align a : ℕ) (s t : Pages) : Type 0 where
  pub turn : ℕ
  pub at : a ≡ turn * align
  pub fits : Fits s.words npages a
  pub earlier : (k : ℕ) → k < turn → window_free npages (k * align) s.words ≡ false
  pub state : t ≡ record s { words = use_window npages a s.words }

-- What alloc_aligned has to do: the first fit, or a panic if no multiple of `align` fits.
abbrev pub FirstFit : ℕ → ℕ → Pages → Outcome ℕ → Type 0
FirstFit npages align s r =
    ((a : ℕ) × (t : Pages) × (r ≡ ok (a * 0x1000) t) × IsFirstFit npages align a s t)
    ⊎ ((r ≡ panic) × ((k : ℕ) → ¬ Fits s.words npages (k * align)))

mul_mono : (j k n : ℕ) → j ≤ k → j * n ≤ k * n
mul_mono j k n h = grind arith

module _ (npages align : ℕ) (s : Pages) (small : align ≤ 2 ^ 63) (pos : 0 < align) where
  aligned_from_lem :
      (f turn start : ℕ)
      → start ≡ turn * align
      → 0 < f
      → max_page + 1 < f + start
      → npages + start < 2 ^ 64
      → ((k : ℕ) → k < turn → window_free npages (k * align) s.words ≡ false)
      → FirstFit npages align s (aligned_from f start npages align s)
  unfolding aligned_from
  aligned_from_lem zero turn start e some_fuel fuel nowrap earlier = absurd (omega arith)
  aligned_from_lem (suc f) turn start e some_fuel fuel nowrap earlier =
      elim (Bool-cases (leb ((start + npages) % 2 ^ 64) max_page)) [
        | inr past ↦ inr (
          rw past refl,
          λ k fits. elim (Bool-cases (ltb k turn)) [
            | inl old ↦ cc (fits.1, earlier k (ltb→lt k turn old))
            | inr new ↦ ground (arith, mul_mono turn k align)
          ],
        )
        | inl inside ↦ elim (Bool-cases (window_free npages start s.words)) [
          | inl free ↦ inl (
            start,
            record s { words = use_window npages start s.words },
            rw (inside, free) refl,
            record {
              turn = turn;
              at = e;
              fits = (ground arith, free);
              earlier = earlier;
              state = refl;
            },
          )
          | inr used ↦
              let next : (start + align) % 2 ^ 64 ≡ start + align = ground arith in
              rw (inside, used, next)
                (aligned_from_lem f (turn + 1) (start + align) (grind arith) (ground arith)
                  (ground arith) (ground arith)
                  λ k h. elim (Bool-cases (ltb k turn)) [
                    | inl old ↦ earlier k (ltb→lt k turn old)
                    | inr new ↦ let eq : k ≡ turn = ground arith in rw (eq, ← e) used
                  ])
        ]
      ]

  -- For a positive number of pages and a positive alignment of at most 2 ^ 63 pages alloc_aligned ends, and hands out the first
  -- multiple of the alignment at which all the pages lie in low memory and are free, or panics if
  -- there is none.
  pub alloc_aligned-FirstFit :
      npages ≢ 0 → npages < 2 ^ 64 → FirstFit npages align s (alloc_aligned npages align s)
  unfolding alloc_aligned
  alloc_aligned-FirstFit some_pages word =
      let go : (npages == 0) ≡ false = ground arith in
      rw go (
        aligned_from_lem (max_page + 2) 0 0 (omega arith) (omega arith) (omega arith) (omega arith)
          λ k h. absurd (omega arith))

-- The pages of a first fit were all free, and are all in use afterwards; no other page changes, and
-- neither does the depth of the page stack.
pub IsFirstFit-pages :
    (npages align : ℕ) (s : Pages) {a : ℕ} {t : Pages}
    → IsFirstFit npages align a s t
    → ((q : ℕ) → within a npages q ≡ true → is_free s.words q ≡ true)
      × ((q : ℕ) → is_free t.words q ≡ (if within a npages q then false else is_free s.words q))
      × (t.depth ≡ s.depth)
IsFirstFit-pages npages align s {a} fit = (
  λ q i. window_free_sound npages a s.words q fit.fits.1 i,
  λ q. rw fit.state (is_free-use_window npages a s.words q),
  rw fit.state refl,
)

-- What alloc_aligned hands out for a positive number of pages and a positive alignment of at most 2 ^ 63
-- pages: the address of a page whose number is a multiple of the alignment, with all the pages from it
-- in low memory. These were free and are in use afterwards; no other page of the bitmap changes, and
-- neither does the depth of the page stack.
pub alloc_aligned-pages :
    (npages align p : ℕ) (s t : Pages)
    → align ≤ 2 ^ 63
    → 0 < align
    → npages ≢ 0
    → npages < 2 ^ 64
    → alloc_aligned npages align s ≡ ok p t
    → (a turn : ℕ) × (p ≡ a * 0x1000)
      × (a ≡ turn * align)
      × (a + npages ≤ max_page)
      × ((q : ℕ) → within a npages q ≡ true → is_free s.words q ≡ true)
      × ((q : ℕ) → is_free t.words q ≡ (if within a npages q then false else is_free s.words q))
      × (t.depth ≡ s.depth)
alloc_aligned-pages npages align p s t small pos some_pages word run =
    elim (alloc_aligned-FirstFit npages align s small pos some_pages word) [
      | inr (fails, nothing) ↦ absurd (ok-panic (sym run ∙ fails))
      | inl (a, u, gives, fit) ↦
          let (place, state) = ok-inj (sym run ∙ gives) in
          let (were, now, depth) = IsFirstFit-pages npages align s fit in
          (a, fit.turn, place, fit.at, fit.fits.0, were, λ q. rw state (now q), rw state depth)
    ]
  where
    ok-panic : {x : ℕ} {u : Pages} → ok x u ≢ panic
    ok-panic h = ground arith

    ok-inj : {x y : ℕ} {u v : Pages} → ok x u ≡ ok y v → (x ≡ y) × (u ≡ v)
    ok-inj h = (ground arith, ground arith)
