-- ===== src/Mman/Tests.antt =====
-- Runs of the page allocator, and its theorems at concrete states.
use pzos.Base.{
  ℕ, ◌+◌, ◌-◌, ◌*◌, ◌/◌, ◌^◌, ◌≤◌, ◌<◌, ◌≡◌, ◌≢◌, refl, true, false, arith, ◌==◌, if◌then◌else◌,
}
use pzos.Mman.{
  Pages, ok, panic, lowmem_size, max_page, entry, bsr, alloc_page, free_page, alloc_aligned,
  aligned_from, window_free, use_window, alloc_contig, free_contig,
}
use pzos.Mman.Bitmap.{is_free, within}
use pzos.Base.{List, [], ◌∷◌, some, ◌&&◌, not, inl}
use pzos.Mman.Startup.{
  Region, usable, reserved, bootloader_reclaimable, mem_size, reserve_for, find_place, init_pages,
  reclaim,
}
use pzos.Mman.Filling.{is_usable_page}
use pzos.Mman.Initial.{IsMap, IsAway, is_available, init_pages-is_available}
use pzos.Mman.Reclaiming.{AreSmall, is_reclaimable_page, reclaim-stack}
use pzos.Base.Bits.{test}
use pzos.Mman.Single.{AreWords, free_page-low, alloc_page-free_page, free_page-alloc_last}
use pzos.Mman.Single.{alloc_page-lowest, alloc_page_twice, alloc_page-stale}
use pzos.Mman.Aligned.{FirstFit, alloc_aligned-FirstFit, alloc_aligned-pages}
use pzos.Mman.Contig.{free_contig-alloc_contig, free_contig-null}

-- The first 64 pages free, and nothing on the stack.
abbrev low_words : ℕ → ℕ
low_words i = if i == 0 then 2 ^ 64 - 1 else 0

abbrev low_only : Pages
low_only = record { words = low_words; depth = 0 }

-- Pages 1 to 63 free.
abbrev no_null_words : ℕ → ℕ
no_null_words i = if i == 0 then 2 ^ 64 - 2 else 0

abbrev no_null : Pages
no_null = record { words = no_null_words; depth = 0 }

-- Nothing free, and page 0x10000 left over behind the bitmap.
abbrev stale_words : ℕ → ℕ
stale_words i = if i == 1024 then 0x10000 else 0

abbrev stale : Pages
stale = record { words = stale_words; depth = 0 }

abbrev one_high : Pages
one_high = record { words = stale_words; depth = 1 }

low_words-AreWords : AreWords low_words
low_words-AreWords i = ground arith

no_null-AreWords : AreWords no_null_words
no_null-AreWords i = ground arith

stale-AreWords : AreWords stale_words
stale-AreWords i = ground arith

bsr_runs : (bsr (2 ^ 64 - 1) ≡ 63) × (bsr 1 ≡ 0) × (bsr 12 ≡ 3)
unfolding bsr
bsr_runs = (refl, refl, refl)

alloc_aligned_runs : (t : Pages) × (alloc_aligned 3 4 no_null ≡ ok 0x4000 t)
unfolding alloc_aligned aligned_from window_free
alloc_aligned_runs = (record no_null { words = use_window 3 4 no_null_words }, refl)

free_page-low_test :
    (t : Pages) × (free_page 0x3000 stale ≡ ok tt t)
    × (t.depth ≡ 0)
    × ((q : ℕ) → is_free t.words q ≡ (if 0x3000 / 0x1000 == q then true else is_free stale_words q))
    × ((k : ℕ) → entry t.words k ≡ entry stale_words k)
free_page-low_test = free_page-low 0x3000 stale (omega arith)

-- The page at 4 GiB comes back as address 0.
alloc_page-free_page_test :
    (t u : Pages) × (free_page (2 ^ 32) one_high ≡ ok tt t)
    × (alloc_page t ≡ ok 0 u)
    × (u.depth ≡ 1)
    × ((k : ℕ) → k < 1 → entry u.words k ≡ entry stale_words k)
    × ((q : ℕ) → q < max_page → is_free u.words q ≡ is_free stale_words q)
alloc_page-free_page_test = alloc_page-free_page (2 ^ 32) one_high (omega arith) refl (omega arith)

free_page-alloc_last_test : free_page lowmem_size (record one_high { depth = 0 }) ≡ panic
unfolding alloc_page entry
free_page-alloc_last_test =
    free_page-alloc_last lowmem_size lowmem_size one_high (record one_high { depth = 0 }) refl
      (omega arith) refl

alloc_page-lowest_example :
    (q : ℕ) × (t : Pages) × (alloc_page no_null ≡ ok (q * 0x1000) t)
    × (q ≤ 5)
    × (is_free no_null_words q ≡ true)
    × ((r : ℕ) → r < q → is_free no_null_words r ≡ false)
    × (t.words (q / 64) ≡ bsr (no_null_words (q / 64)))
    × ((j : ℕ) → j ≢ q / 64 → t.words j ≡ no_null_words j)
    × (t.depth ≡ 0)
unfolding test
alloc_page-lowest_example = alloc_page-lowest no_null no_null-AreWords refl 5 (omega arith) refl

alloc_page_twice_example : (t u : Pages) × (alloc_page low_only ≡ ok 0 t) × (alloc_page t ≡ ok 0 u)
unfolding bsr
alloc_page_twice_example =
    alloc_page_twice low_only low_words-AreWords refl 0 (omega arith) (λ j h. absurd (omega arith))
      refl refl

alloc_page-stale_test : (a : ℕ) × (t : Pages) × (alloc_page stale ≡ ok a t) × (lowmem_size ≤ a)
alloc_page-stale_test =
    alloc_page-stale stale stale-AreWords refl 1024 (λ j h. ground arith) (omega arith)
      (omega arith) (omega arith)

alloc_aligned-FirstFit_example : FirstFit 3 4 no_null (alloc_aligned 3 4 no_null)
alloc_aligned-FirstFit_example =
    alloc_aligned-FirstFit 3 4 no_null (omega arith) (omega arith) (omega arith) (omega arith)

alloc_aligned-pages_example :
    (a turn : ℕ) × (0x4000 ≡ a * 0x1000)
    × (a ≡ turn * 4)
    × (a + 3 ≤ max_page)
    × ((q : ℕ) → within a 3 q ≡ true → is_free no_null_words q ≡ true)
    × ((q : ℕ)
        → is_free (alloc_aligned_runs.0).words q
          ≡ (if within a 3 q then false else is_free no_null_words q))
    × ((alloc_aligned_runs.0).depth ≡ 0)
alloc_aligned-pages_example =
    alloc_aligned-pages 3 4 0x4000 no_null (alloc_aligned_runs.0) (omega arith) (omega arith)
      (omega arith) (omega arith) (alloc_aligned_runs.1)

free_contig-alloc_contig_example :
    ((q : ℕ)
      → is_free
          (free_contig 0x1000 2 (record no_null { words = use_window 2 1 no_null_words })).words
          q
        ≡ is_free no_null_words q)
    × ((free_contig 0x1000 2 (record no_null { words = use_window 2 1 no_null_words })).depth ≡ 0)
unfolding alloc_contig alloc_aligned aligned_from window_free
free_contig-alloc_contig_example =
    free_contig-alloc_contig 2 0x1000 no_null
      (record no_null { words = use_window 2 1 no_null_words }) (omega arith) (omega arith) refl
      (omega arith)

free_contig-null_test :
    is_free (free_contig 0 2 (record low_only { words = use_window 2 0 low_words })).words 1 ≡ false
unfolding alloc_contig alloc_aligned aligned_from window_free
free_contig-null_test =
    free_contig-null 2 low_only (record low_only { words = use_window 2 0 low_words }) (omega arith)
      (omega arith) refl 1 (omega arith)

-- A memory map: the first 64 KiB, a region that low memory ends in, and one of the boot loader.
abbrev some_map : List Region
some_map =
    record { base = 0x0; length = 0x10000; kind = usable }
    ∷ record { base = 0x10000; length = 0x10000; kind = reserved }
    ∷ record { base = 0xff00000; length = 0x200000; kind = usable }
    ∷ record { base = 0x10100000; length = 0x3000; kind = bootloader_reclaimable }
    ∷ []

some_map-IsMap : IsMap some_map
unfolding IsMap IsAway
some_map-IsMap = (
  λ u. (
    record {
      base_aligned = refl;
      length_aligned = refl;
      nonempty = omega arith;
      bounded = omega arith;
    },
    (λ v. inl (omega arith), (λ v. inl (omega arith), (λ v. inl (omega arith), tt))),
  ),
  (
    λ u. absurd (ground arith),
    (
      λ u. (
        record {
          base_aligned = refl;
          length_aligned = refl;
          nonempty = omega arith;
          bounded = omega arith;
        },
        (λ v. inl (omega arith), tt),
      ),
      (λ u. absurd (ground arith), tt),
    ),
  ),
)

some_map_place : find_place (reserve_for (mem_size some_map 0)) some_map ≡ some 0x10000000
unfolding find_place mem_size
some_map_place = refl

init_pages-is_available_example :
    (t : Pages) × (init_pages some_map (λ i. 0) ≡ some t)
    × ((p : ℕ)
        → is_available t p ≡ (
            is_usable_page some_map p
            && not (within (0x10000000 / 0x1000) (reserve_for (mem_size some_map 0)) p)))
init_pages-is_available_example =
    init_pages-is_available some_map (λ i. 0) 0x10000000 some_map-IsMap some_map_place

some_map-AreSmall : AreSmall some_map
unfolding AreSmall
some_map-AreSmall = (
  λ u. absurd (ground arith),
  (λ u. absurd (ground arith), (λ u. absurd (ground arith), (λ u. (omega arith, omega arith), tt))),
)

some_map_stack : is_reclaimable_page some_map 0x10101 ≡ true
unfolding is_reclaimable_page
some_map_stack = refl

-- The stack is in the boot loader's page 0x10101, at 0xffff800010101000 in the direct map.
reclaim-stack_example :
    is_available (reclaim (0xffff800010101000 / 0x1000) some_map low_only) 0x10101 ≡ true
reclaim-stack_example =
    reclaim-stack 0xffff800010101000 some_map low_only 0x10101 some_map-AreSmall (omega arith)
      (omega arith) some_map_stack
