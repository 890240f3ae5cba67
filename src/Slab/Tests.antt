-- ===== src/Slab/Tests.antt =====
-- Runs of the slab allocator, and its theorems at concrete heaps.
use pzos.Base.{ℕ, ◌+◌, ◌-◌, ◌*◌, ◌/◌, ◌%◌, ◌^◌, ◌≤◌, ◌<◌, ◌≡◌, ◌⊎◌, refl, true, false}
use pzos.Base.{[], ◌∷◌, none, some, arith, ◌==◌, if◌then◌else◌, get_or}
use pzos.Mman.{Pages, entry, alloc_page, page_size}
use pzos.Slab.{Heap, pa, round_size, double_from, slab_alloc, slab_free}
use pzos.Slab.Chain.{IsNotIn}
use pzos.Slab.Sizes.{round_size-fits}
use pzos.Slab.Alloc.{Free, slab_alloc-pop, slab_alloc-slab_free, slab_alloc-page}
use pzos.Slab.Kmalloc.{Areas, sizes, kmalloc, kmalloc-enough, kmalloc-wrap}

abbrev direct_map : ℕ
direct_map = 0xffff800000000000

-- One high page on the page stack.
abbrev one_page : Pages
one_page = record { words = λ i. if i == 1024 then 0x10000 else 0; depth = 1 }

-- The page as it lies in the direct map.
abbrev base : ℕ
base = 0xffff800010000000

abbrev empty_heap : Heap
empty_heap = record {
  word = λ i. 7;
  slabs = λ i. record { obj_size = 1024; free_list = 0 };
  slab_page = λ i. false;
  owner = λ i. 0;
  pages = one_page;
}

-- Two free objects of the slab at 5, the first linked to the second.
abbrev two_free : Heap
two_free = record empty_heap {
  word = λ i. if i == base then base + 1024 else 0;
  slabs = λ i. record { obj_size = 1024; free_list = base };
  slab_page = λ i. true;
  owner = λ i. 5;
}

two_free-Free : Free 5 two_free (base ∷ (base + 1024) ∷ [])
two_free-Free = ((refl, omega arith, (refl, omega arith, refl)), ((omega arith, tt), (tt, tt)))

abbrev no_areas : Areas
no_areas = record { vmalloc = λ n h. some (n * page_size, h); vfree = λ p n h. none }

round_runs :
    (round_size 1 ≡ 8) × (round_size 8 ≡ 8) × (round_size 24 ≡ 32) × (round_size 2048 ≡ 2048)
unfolding round_size double_from
round_runs = (refl, refl, refl, refl)

round_size_test :
    (100 ≤ round_size 100)
    × ((round_size 100 ≡ 8) ⊎ (round_size 100 < 200))
    × (page_size % round_size 100 ≡ 0)
round_size_test = round_size-fits 100 (omega arith) (omega arith)

slab_alloc_test :
    (t : Heap) × (slab_alloc direct_map 5 two_free ≡ some (base, t))
    × Free 5 t ((base + 1024) ∷ [])
    × IsNotIn base ((base + 1024) ∷ [])
    × (t.word ≡ two_free.word)
slab_alloc_test = slab_alloc-pop direct_map 5 base ((base + 1024) ∷ []) two_free two_free-Free

slab_alloc-slab_free_example :
    (t u : Heap) × (slab_free direct_map (base + 2048) two_free ≡ some t)
    × (slab_alloc direct_map 5 t ≡ some (base + 2048, u))
    × Free 5 u (base ∷ (base + 1024) ∷ [])
slab_alloc-slab_free_example =
    slab_alloc-slab_free direct_map 5 (base + 2048) (base ∷ (base + 1024) ∷ []) two_free
      two_free-Free (omega arith, (omega arith, tt)) (omega arith) refl refl

slab_alloc-page_example :
    (t : Heap) × (slab_alloc direct_map 5 empty_heap ≡ some (base, t))
    × Free 5 t ((base + 1024) ∷ (base + 2048) ∷ (base + 3072) ∷ [])
    × (t.slab_page (pa direct_map base / page_size) ≡ true)
    × (t.owner (pa direct_map base / page_size) ≡ 5)
    × ((i : ℕ) → (i < base) ⊎ (base + page_size ≤ i) → t.word i ≡ 7)
    × (t.pages ≡ record one_page { depth = 0 })
unfolding alloc_page entry
slab_alloc-page_example =
    slab_alloc-page direct_map 5 0x10000000 3 (record one_page { depth = 0 }) empty_heap refl refl
      (omega arith) refl

kmalloc-enough_test :
    ((i : ℕ) × (i < 9)
      × (5000 ≤ 2048)
      × (5000 ≤ get_or sizes i 0)
      × ((i ≡ 0) ⊎ (get_or sizes i 0 < 10000))
      × (kmalloc direct_map no_areas [] 5000 empty_heap
          ≡ slab_alloc direct_map (get_or [] i 0) empty_heap))
    ⊎ ((n : ℕ) × (2048 < 5000)
        × (5000 ≤ n * page_size)
        × (n * page_size < 5000 + page_size)
        × (kmalloc direct_map no_areas [] 5000 empty_heap ≡ some (n * page_size, empty_heap)))
kmalloc-enough_test = kmalloc-enough direct_map no_areas [] 5000 empty_heap (omega arith)

kmalloc-wrap_test : kmalloc direct_map no_areas [] (2 ^ 64 - 1) empty_heap ≡ some (0, empty_heap)
kmalloc-wrap_test =
    kmalloc-wrap direct_map no_areas [] (2 ^ 64 - 1) empty_heap (omega arith) (omega arith)
