-- ===== src/Mman/Pushing.antt =====
-- kernel/arch/x86_64/mman.c, mman_init: the page stack that the loop over the memory map makes.
use pzos.Base.{
  ℕ, zero, suc, ◌+◌, ◌-◌, ◌%◌, ◌^◌, ◌<◌, ◌≤◌, ◌≡◌, ◌≢◌, ◌⊎◌, inl, inr, max, refl, ap, ◌∙◌,
}
use pzos.Base.{
  Bool, true, false, ◌&&◌, ◌||◌, not, arith, List, [], ◌∷◌, ltb, leb, ◌==◌, if◌then◌else◌,
}
use pzos.Base.{Bool-cases}
use pzos.Mman.{Pages, entry, set_entry, max_page}
use pzos.Mman.Bitmap.{is_free, within}
use pzos.Mman.Entries.{entry-set_entry, is_free-set_entry}
use pzos.Mman.Startup.{Region, is_usable, start_page, end_page, push_page, push_pages, push_regions}
use pzos.Mman.Filling.{is_usable_page}

-- Page `p` is one of the first `n` entries of the page stack.
unfoldable pub has_entry : ℕ → (ℕ → ℕ) → ℕ → Bool
has_entry zero ws p = false
has_entry (suc n) ws p = entry ws n == p || has_entry n ws p

abbrev pub on_stack : Pages → ℕ → Bool
on_stack s p = has_entry s.depth s.words p

has_entry-set_entry :
    (n d v : ℕ) (ws : ℕ → ℕ) (p : ℕ) → n ≤ d → has_entry n (set_entry ws d v) p ≡ has_entry n ws p
unfolding has_entry
has_entry-set_entry zero d v ws p le = refl
has_entry-set_entry (suc n) d v ws p le =
    ground (arith, entry-set_entry ws d v n, has_entry-set_entry n d v ws p)

pub on_stack-push_page :
    (v : ℕ) (s : Pages) (p : ℕ) → v < 2 ^ 32 → on_stack (push_page v s) p ≡ (v == p || on_stack s p)
on_stack-push_page v s p small =
    unfold has_entry in
    rw (succ s.depth) (
      ground (
        arith,
        entry-set_entry s.words s.depth v s.depth,
        has_entry-set_entry s.depth s.depth v s.words p,
      ))
  where
    succ : (n : ℕ) → n + 1 ≡ suc n
    succ n = omega arith

either :
    (b : Bool) (s t u : Pages) (q : ℕ)
    → is_free s.words q ≡ is_free u.words q
    → is_free t.words q ≡ is_free u.words q
    → is_free (if b then s else t).words q ≡ is_free u.words q
either true s t u q h h' = h
either false s t u q h h' = h'

module _ (first reserve : ℕ) where
  -- Where the reserved pages are: between `low` and `j`, above `j`, or below `low`.
  abbrev pub Apart : ℕ → ℕ → Type 0
  Apart low j =
      ((low ≤ first) × (first + reserve ≤ j + 1)) ⊎ ((j < first) ⊎ (first + reserve ≤ low))

  -- Page `p` is from `low` to `j` and not reserved.
  abbrev pub kept : ℕ → ℕ → ℕ → Bool
  kept low j p = leb low p && leb p j && not (within first reserve p)

  module _ (some_reserved : 0 < reserve) (room : 1 < first) (low : ℕ) (positive : 0 < low) where
    -- The round for a page that is not the last reserved one.
    push_one :
        (n j : ℕ) (s : Pages)
        → low ≤ j
        → j < 2 ^ 32
        → j ≢ first + reserve - 1
        → push_pages first reserve (suc n) j low s
          ≡ push_pages first reserve n (j - 1) low (push_page j s)
    unfolding push_pages
    push_one n j s le small other =
        let inside : leb low j ≡ true = ground arith in
        let over : ltb j low ≡ false = ground arith in
        let free : (j == first + reserve - 1) ≡ false = ground arith in
        let step : (j + 2 ^ 64 - 1) % 2 ^ 64 ≡ j - 1 = omega arith in
        rw (push_pages, inside, free, over, step) refl

    -- The round for the last reserved page goes on below the first.
    skip_reserved :
        (n j : ℕ) (s : Pages)
        → low ≤ j
        → j < 2 ^ 32
        → j ≡ first + reserve - 1
        → push_pages first reserve (suc n) j low s
          ≡ push_pages first reserve n
              (first - 2)
              low
              (if ltb (first - 1) low then s else push_page (first - 1) s)
    unfolding push_pages
    skip_reserved n j s le small last =
        let inside : leb low j ≡ true = ground arith in
        let taken : (j == first + reserve - 1) ≡ true = ground arith in
        let below : (j + 2 ^ 64 - reserve) % 2 ^ 64 ≡ first - 1 = omega arith in
        let step : (first - 1 + 2 ^ 64 - 1) % 2 ^ 64 ≡ first - 2 = omega arith in
        rw (push_pages, inside, taken, below, step) refl

    -- A page is on the stack behind the loop if it was before, or is from `low` to `j` and not reserved.
    pub on_stack-push_pages :
        (n j : ℕ) (s : Pages) (p : ℕ)
        → j < low + n
        → j < 2 ^ 32
        → Apart low j
        → on_stack (push_pages first reserve n j low s) p ≡ (kept low j p || on_stack s p)
    unfolding push_pages
    on_stack-push_pages zero j s p rounds small apart = ground arith
    on_stack-push_pages (suc n) j s p rounds small apart = elim (split j low) [
      | inl below ↦
          let outside : leb low j ≡ false = ground arith in rw (push_pages, outside) (ground arith)
      | inr le ↦ elim (same j (first + reserve - 1)) [
        | inr other ↦
            let way : Apart low (j - 1) = elim apart [
              | inl (a, b) ↦ inl (a, omega arith)
              | inr (inl a) ↦ inr (inl (omega arith))
              | inr (inr a) ↦ inr (inr a)
            ] in
            let rest =
              on_stack-push_pages n (j - 1) (push_page j s) p (omega arith) (omega arith) way in
            ap (λ t. on_stack t p) (push_one n j s le small other)
            ∙ (rest ∙ ground (arith, on_stack-push_page j s p small))
        | inl last ↦
            let t = if ltb (first - 1) low then s else push_page (first - 1) s in
            let rest =
              on_stack-push_pages n (first - 2) t p (omega arith) (omega arith)
                (inr (inl (omega arith))) in
            let pushed = on_stack-push_page (first - 1) s p (omega arith) in
            ap (λ t. on_stack t p) (skip_reserved n j s le small last)
            ∙ (rest ∙ ground (arith, pushed))
      ]
    ]
      where
        split : (a b : ℕ) → (a < b) ⊎ (b ≤ a)
        split a b = ground arith

        same : (a b : ℕ) → (a ≡ b) ⊎ (a ≢ b)
        same a b = ground arith

    -- What is pushed lies behind the bitmap.
    pub is_free-push_pages :
        (n j : ℕ) (s : Pages) (q : ℕ)
        → q < max_page
        → is_free (push_pages first reserve n j low s).words q ≡ is_free s.words q
    unfolding push_pages
    is_free-push_pages zero j s q lt = refl
    is_free-push_pages (suc n) j s q lt =
        let next = if j == first + reserve - 1 then (j + 2 ^ 64 - reserve) % 2 ^ 64 else j in
        let t = if ltb next low then s else push_page next s in
        either (leb low j) (push_pages first reserve n ((next + 2 ^ 64 - 1) % 2 ^ 64) low t) s s q
          (is_free-push_pages n ((next + 2 ^ 64 - 1) % 2 ^ 64) t q lt
            ∙ either (ltb next low) s (push_page next s) s q refl
                (is_free-set_entry s.words s.depth next q lt))
          refl

  -- Each usable region has its end below 2 ^ 44 bytes, and has all the reserved pages or none of them.
  abbrev pub Fits : Region → Type 0
  Fits r =
      is_usable r.kind ≡ true
      → (end_page r < 2 ^ 32) × Apart (max (start_page r) max_page) (end_page r)

  unfoldable pub AllFit : List Region → Type 0
  AllFit [] = Unit
  AllFit (r ∷ rs) = Fits r × AllFit rs

  module _ (some_reserved : 0 < reserve) (room : 1 < first) where
    -- The pages of high memory that are usable and not reserved come onto the stack, and no other.
    pub on_stack-push_regions :
        (rs : List Region) (s : Pages) (p : ℕ)
        → AllFit rs
        → on_stack (push_regions first reserve rs s) p
          ≡ (leb max_page p && is_usable_page rs p && not (within first reserve p) || on_stack s p)
    unfolding push_regions is_usable_page AllFit
    on_stack-push_regions [] s p fit = ground arith
    on_stack-push_regions (r ∷ rs) s p (fit, fits) = elim (Bool-cases (is_usable r.kind)) [
      | inr other ↦ rw (push_regions, is_usable_page, other) (on_stack-push_regions rs s p fits)
      | inl good ↦
          let low = max (start_page r) max_page in
          let t = push_regions first reserve rs s in
          let (small, way) = fit good in
          let pushed =
            on_stack-push_pages some_reserved room low (omega arith) (end_page r + 1 - low)
              (end_page r) t p (omega arith) small way in
          let before = on_stack-push_regions rs s p fits in
          rw (push_regions, is_usable_page, good) (pushed ∙ ground (arith, before))
    ]

    pub is_free-push_regions :
        (rs : List Region) (s : Pages) (q : ℕ)
        → q < max_page
        → is_free (push_regions first reserve rs s).words q ≡ is_free s.words q
    unfolding push_regions
    is_free-push_regions [] s q lt = refl
    is_free-push_regions (r ∷ rs) s q lt =
        let low = max (start_page r) max_page in
        let t = push_regions first reserve rs s in
        let n = end_page r + 1 - low in
        either (is_usable r.kind) (push_pages first reserve n (end_page r) low t) t s q
          (is_free-push_pages some_reserved room low (omega arith) n (end_page r) t q lt
            ∙ is_free-push_regions rs s q lt)
          (is_free-push_regions rs s q lt)
