-- ===== src/Slab/Alloc.antt =====
-- A slab's free list is a stack of objects.
use pzos.Base.{ℕ, zero, suc, ◌+◌, ◌*◌, ◌/◌, ◌≤◌, ◌<◌, ◌≡◌, ◌≢◌, ◌⊎◌, refl, ap, ◌∙◌}
use pzos.Base.{true, false, List, [], ◌∷◌, some, arith, ◌==◌, if◌then◌else◌}
use native.Mathlib.Nat.{suc-mul, mul-suc}
use pzos.Mman.{Pages, ok, page_size, alloc_page}
use pzos.Slab.{Slab, Heap, va, pa, add_page, refill, pop, slab_alloc, slab_free2, slab_free}
use pzos.Slab.Chain.{IsChain, IsChain-from, IsChain-update, IsNotIn, objects}
use pzos.Slab.Carve.{carve-IsChain, carve-outside}

abbrev pub AreDistinct : List ℕ → Type 0
AreDistinct [] = Unit {0}
AreDistinct (x ∷ xs) = IsNotIn x xs × AreDistinct xs

objects-IsNotIn : (n base size y : ℕ) → y < base → IsNotIn y (objects n base size)
objects-IsNotIn zero base size y low = tt
objects-IsNotIn (suc n) base size y low =
    (omega arith, objects-IsNotIn n (base + size) size y (omega arith))

objects-AreDistinct : (n base size : ℕ) → size ≢ 0 → AreDistinct (objects n base size)
objects-AreDistinct zero base size some_size = tt
objects-AreDistinct (suc n) base size some_size = (
  objects-IsNotIn n (base + size) size base (omega arith),
  objects-AreDistinct n (base + size) size some_size,
)

-- The free objects of the slab at `a`, the next one to be handed out first.
abbrev pub Free : ℕ → Heap → List ℕ → Type 0
Free a h xs = IsChain h.word (h.slabs a).free_list xs × AreDistinct xs

full-nonzero : (n size : ℕ) → suc n * size ≡ page_size → size ≢ 0
full-nonzero n zero full = absurd (omega (arith, full))
full-nonzero n (suc size) full = omega arith

full-size : (n size : ℕ) → suc n * size ≡ page_size → size ≤ page_size
full-size n size full = omega (arith, suc-mul n size, full)

times-le : (n size : ℕ) → n ≤ n * suc size
times-le n size = omega (arith, mul-suc n size)

full-le : (n size : ℕ) → suc n * size ≡ page_size → n ≤ page_size
full-le n zero full = absurd (omega (arith, full))
full-le n (suc size) full = omega (arith, times-le n size, suc-mul n (suc size), full)

chosen : (v w : Slab) (a : ℕ) → (if a == a then w else v) ≡ w
chosen v w a = ground arith

module _ (hhdm_off : ℕ) where
  refill-keep : (a : ℕ) (h : Heap) → (h.slabs a).free_list ≢ 0 → refill hhdm_off a h ≡ some h
  unfolding refill
  refill-keep a h some_object =
      let first : ((h.slabs a).free_list == 0) ≡ false = ground arith in rw first refl

  refill-add :
      (a phys : ℕ) (pages : Pages) (h : Heap)
      → (h.slabs a).free_list ≡ 0
      → alloc_page h.pages ≡ ok phys pages
      → refill hhdm_off a h ≡ some (add_page hhdm_off a phys pages h)
  unfolding refill
  refill-add a phys pages h none_left page =
      let first : ((h.slabs a).free_list == 0) ≡ true = ground arith in rw first (rw page refl)

  pop-Free :
      (a x : ℕ) (xs : List ℕ) (h : Heap)
      → Free a h (x ∷ xs)
      → ((pop hhdm_off a h).0 ≡ x)
        × Free a (pop hhdm_off a h).1 xs
        × ((pop hhdm_off a h).1.word ≡ h.word)
  pop-Free a x xs h ((at, some_object, chain), (other, distinct)) =
      let list : ((pop hhdm_off a h).1.slabs a).free_list ≡ h.word x =
        ap (λ b. b.free_list)
          (chosen (h.slabs a) (record (h.slabs a) { free_list = h.word (h.slabs a).free_list }) a)
        ∙ ap h.word at in
      (at, (rw list chain, distinct), refl)

  -- With a free object slab_alloc hands out the first one, which is then no longer free, and writes
  -- nothing to memory.
  pub slab_alloc-pop :
      (a x : ℕ) (xs : List ℕ) (h : Heap)
      → Free a h (x ∷ xs)
      → (t : Heap) × (slab_alloc hhdm_off a h ≡ some (x, t))
        × Free a t xs
        × IsNotIn x xs
        × (t.word ≡ h.word)
  unfolding slab_alloc
  slab_alloc-pop a x xs h free =
      let (at, rest, same) = pop-Free a x xs h free in
      let some_object : (h.slabs a).free_list ≢ 0 = ground (arith, free.0.0, free.0.1) in
      (
        (pop hhdm_off a h).1,
        rw (slab_alloc, refill-keep a h some_object) (ap (λ y. some (y, (pop hhdm_off a h).1)) at),
        rest,
        free.1.0,
        same,
      )

  -- An object of the slab that is not free is the first free one after slab_free.
  pub slab_free-push :
      (a obj : ℕ) (xs : List ℕ) (h : Heap)
      → Free a h xs
      → IsNotIn obj xs
      → obj ≢ 0
      → h.slab_page (pa hhdm_off obj / page_size) ≡ true
      → h.owner (pa hhdm_off obj / page_size) ≡ a
      → (t : Heap) × (slab_free hhdm_off obj h ≡ some t) × Free a t (obj ∷ xs)
  unfolding slab_free slab_free2
  slab_free-push a obj xs h (chain, distinct) other some_object slab owned =
      let fl = (h.slabs a).free_list in
      let t = slab_free2 hhdm_off a obj h in
      let list : (t.slabs a).free_list ≡ obj = ground arith in
      let link : t.word obj ≡ fl = ground arith in
      (
        t,
        rw (slab, owned) refl,
        (
          (
            list,
            some_object,
            IsChain-from t.word obj fl xs link (IsChain-update h.word fl obj fl xs other chain),
          ),
          (other, distinct),
        ),
      )

  -- What slab_free takes back, the next slab_alloc hands out, and the free list is then as before.
  pub slab_alloc-slab_free :
      (a obj : ℕ) (xs : List ℕ) (h : Heap)
      → Free a h xs
      → IsNotIn obj xs
      → obj ≢ 0
      → h.slab_page (pa hhdm_off obj / page_size) ≡ true
      → h.owner (pa hhdm_off obj / page_size) ≡ a
      → (t u : Heap) × (slab_free hhdm_off obj h ≡ some t)
        × (slab_alloc hhdm_off a t ≡ some (obj, u))
        × Free a u xs
  slab_alloc-slab_free a obj xs h free other some_object slab owned =
      let (t, freed, more) = slab_free-push a obj xs h free other some_object slab owned in
      let (u, got, rest, _, _) = slab_alloc-pop a obj xs t more in (t, u, freed, got, rest)

  -- With no free object slab_alloc takes a page and hands out its first object; the others, which
  -- fill the page in order, are then the free ones. The page is marked as one of this slab, and
  -- nothing outside it is written.
  pub slab_alloc-page :
      (a phys n : ℕ) (pages : Pages) (h : Heap)
      → (h.slabs a).free_list ≡ 0
      → alloc_page h.pages ≡ ok phys pages
      → va hhdm_off phys ≢ 0
      → suc n * (h.slabs a).obj_size ≡ page_size
      → let base = va hhdm_off phys in
        let size = (h.slabs a).obj_size in
        (t : Heap) × (slab_alloc hhdm_off a h ≡ some (base, t))
        × Free a t (objects n (base + size) size)
        × (t.slab_page (pa hhdm_off base / page_size) ≡ true)
        × (t.owner (pa hhdm_off base / page_size) ≡ a)
        × ((i : ℕ) → (i < base) ⊎ (base + page_size ≤ i) → t.word i ≡ h.word i)
        × (t.pages ≡ pages)
  unfolding slab_alloc add_page
  slab_alloc-page a phys n pages h none_left page some_base full =
      let base = va hhdm_off phys in
      let size = (h.slabs a).obj_size in
      let v = add_page hhdm_off a phys pages h in
      let some_size : size ≢ 0 = full-nonzero n size full in
      let list : (v.slabs a).free_list ≡ base =
        ap (λ b. b.free_list) (chosen (h.slabs a) (record (h.slabs a) { free_list = base }) a) in
      let chain : IsChain v.word base (objects (suc n) base size) =
        carve-IsChain n base size h.word some_base some_size full (full-le n size full) in
      let free : Free a v (objects (suc n) base size) =
        ((list, some_base, chain.2), objects-AreDistinct (suc n) base size some_size) in
      let (at, rest, same) = pop-Free a base (objects n (base + size) size) v free in
      (
        (pop hhdm_off a v).1,
        rw (slab_alloc, refill-add a phys pages h none_left page)
            (ap (λ y. some (y, (pop hhdm_off a v).1)) at),
        rest,
        ground arith,
        ground arith,
        λ i out. carve-outside base size h.word i some_size (full-size n size full) out,
        refl,
      )
