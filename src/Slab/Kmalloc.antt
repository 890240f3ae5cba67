-- ===== src/Slab/Kmalloc.antt =====
-- kernel/src/kmalloc.c: a slab for each small size, and areas of virtual memory for the others.
use pzos.Base.{ℕ, ◌+◌, ◌-◌, ◌*◌, ◌/◌, ◌%◌, ◌^◌, ◌≤◌, ◌<◌, ◌≡◌, ◌⊎◌, inl, inr, refl, true, false}
use pzos.Base.{List, [], ◌∷◌, Option, none, some, get_or, arith, ltb, leb, ◌==◌}
use pzos.Base.{if◌then◌else◌, Bool-cases, Bool, ◌&&◌, ◌||◌, all_below, all_below_sound}
use pzos.Mman.{page_size}
use pzos.Slab.{Heap, pa, slab_alloc, slab_free, slab_create}

abbrev pub sizes : List ℕ
sizes = 8 ∷ 16 ∷ 32 ∷ 64 ∷ 128 ∷ 256 ∷ 512 ∷ 1024 ∷ 2048 ∷ []

-- The index in `sizes` of the first size that is enough, from index `i` on.
unfoldable pub find_class : ℕ → ℕ → List ℕ → Option ℕ
find_class size i [] = none
find_class size i (c ∷ cs) =
    let rest = find_class size (i + 1) cs in if leb size c then some i else rest

abbrev pub push_slab : ℕ → Option (List ℕ × Heap) → Option (List ℕ × Heap)
push_slab slab none = none
push_slab slab (some (slabs, h)) = some (slab ∷ slabs, h)

-- The operations of vmem.c that this part calls. `none` is a panic.
pub record Areas : Type 0 where
  pub vmalloc : ℕ → Heap → Option (ℕ × Heap)
  pub vfree : ℕ → ℕ → Heap → Option Heap

-- The rounds behind a call of slab_create.
abbrev pub init_rest : (Heap → Option (List ℕ × Heap)) → Option (ℕ × Heap) → Option (List ℕ × Heap)
init_rest rest none = none
init_rest rest (some (slab, h)) = push_slab slab (rest h)

-- The array kmalloc_slabs, as it is filled for the sizes given.
unfoldable pub kmalloc_init : ℕ → ℕ → List ℕ → Heap → Option (List ℕ × Heap)
kmalloc_init hhdm_off global [] h = some ([], h)
kmalloc_init hhdm_off global (c ∷ cs) h =
    init_rest (kmalloc_init hhdm_off global cs) (slab_create hhdm_off global c h)

module _ (hhdm_off : ℕ) (areas : Areas) where
  unfoldable pub kmalloc : List ℕ → ℕ → Heap → Option (ℕ × Heap)
  kmalloc slabs size h = elim (find_class size 0 sizes) [
    | some i ↦ slab_alloc hhdm_off (get_or slabs i 0) h
    | none ↦ areas.vmalloc ((size + page_size - 1) % 2 ^ 64 / page_size) h
  ]

  -- The number of pages shares its place in the pageinfo with the owner of a slab's page.
  unfoldable pub kfree : ℕ → Heap → Option Heap
  kfree ptr h =
      let page = pa hhdm_off ptr / page_size in
      if h.slab_page page then slab_free hhdm_off ptr h else areas.vfree ptr (h.owner page) h

abbrev class_ok : ℕ → Option ℕ → Bool
class_ok size none = false
class_ok size (some i) =
    ltb i 9 && (leb size (get_or sizes i 0) && (i == 0 || ltb (get_or sizes i 0) (2 * size)))

class_table : all_below 2049 (λ size. class_ok size (find_class size 0 sizes)) ≡ true
unfolding find_class
class_table = refl

abbrev AreBelow : ℕ → List ℕ → Type 0
AreBelow size [] = Unit {0}
AreBelow size (c ∷ cs) = (c < size) × AreBelow size cs

find_class-large : (size i : ℕ) (cs : List ℕ) → AreBelow size cs → find_class size i cs ≡ none
unfolding find_class
find_class-large size i [] below = refl
find_class-large size i (c ∷ cs) (small, below) =
    ground (arith, find_class-large size (i + 1) cs below)

sizes-AreBelow : (size : ℕ) → 2048 < size → AreBelow size sizes
sizes-AreBelow size large = ground arith

class_at :
    (size : ℕ) (r : Option ℕ)
    → class_ok size r ≡ true
    → (i : ℕ) × (r ≡ some i)
      × (i < 9)
      × (size ≤ get_or sizes i 0)
      × ((i ≡ 0) ⊎ (get_or sizes i 0 < 2 * size))
class_at size none one = absurd (ground (arith, one))
class_at size (some i) one =
    (i, refl, ground (arith, one), ground (arith, one), ground (arith, one))

module _ (hhdm_off : ℕ) (areas : Areas) where
  kmalloc-class :
      (slabs : List ℕ) (size i : ℕ) (h : Heap)
      → find_class size 0 sizes ≡ some i
      → kmalloc hhdm_off areas slabs size h ≡ slab_alloc hhdm_off (get_or slabs i 0) h
  unfolding kmalloc
  kmalloc-class slabs size i h found = rw (kmalloc, found) refl

  -- A request of up to 2048 bytes goes to the slab of a size that is enough, and either the least of
  -- all or less than twice what is asked for. A larger one goes to vmalloc, with the least number of
  -- pages that is enough, unless it is within a page of 2 ^ 64.
  pub kmalloc-enough :
      (slabs : List ℕ) (size : ℕ) (h : Heap)
      → size < 2 ^ 64 - 4095
      → ((i : ℕ) × (i < 9)
          × (size ≤ 2048)
          × (size ≤ get_or sizes i 0)
          × ((i ≡ 0) ⊎ (get_or sizes i 0 < 2 * size))
          × (kmalloc hhdm_off areas slabs size h ≡ slab_alloc hhdm_off (get_or slabs i 0) h))
        ⊎ ((n : ℕ) × (2048 < size)
            × (size ≤ n * page_size)
            × (n * page_size < size + page_size)
            × (kmalloc hhdm_off areas slabs size h ≡ areas.vmalloc n h))
  unfolding kmalloc
  kmalloc-enough slabs size h below = elim (Bool-cases (leb size 2048)) [
    | inl small ↦
        let one : class_ok size (find_class size 0 sizes) ≡ true =
          all_below_sound 2049 (λ s. class_ok s (find_class s 0 sizes)) size class_table
            (ground arith) in
        let (i, found, nine, enough, tight) = class_at size (find_class size 0 sizes) one in
        inl (i, nine, ground arith, enough, tight, kmalloc-class slabs size i h found)
    | inr large ↦
        let none_fits : find_class size 0 sizes ≡ none =
          find_class-large size 0 sizes (sizes-AreBelow size (ground arith)) in
        let whole : (size + page_size - 1) % 2 ^ 64 ≡ size + page_size - 1 = omega arith in
        inr (
          (size + page_size - 1) / page_size,
          ground arith,
          omega arith,
          omega arith,
          rw (kmalloc, none_fits, whole) refl,
        )
  ]

  -- A request within a page of 2 ^ 64 bytes wraps around, and asks vmalloc for no pages at all.
  pub kmalloc-wrap :
      (slabs : List ℕ) (size : ℕ) (h : Heap)
      → 2 ^ 64 - 4095 ≤ size
      → size < 2 ^ 64
      → kmalloc hhdm_off areas slabs size h ≡ areas.vmalloc 0 h
  unfolding kmalloc
  kmalloc-wrap slabs size h high word =
      let none_fits : find_class size 0 sizes ≡ none =
        find_class-large size 0 sizes (sizes-AreBelow size (omega arith)) in
      let nothing : (size + page_size - 1) % 2 ^ 64 / page_size ≡ 0 = omega arith in
      rw (kmalloc, none_fits, nothing) refl
