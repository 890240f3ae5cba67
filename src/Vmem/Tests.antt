-- ===== src/Vmem/Tests.antt =====
-- Runs of vmem.c, and its theorems at a concrete list of areas.
use pzos.Base.{ℕ, ◌+◌, ◌-◌, ◌%◌, ◌^◌, ◌≡◌, ◌≢◌, refl, arith}
use pzos.Base.{[], ◌∷◌, ◌==◌, if◌then◌else◌}
use pzos.Vmem.{
  Vma, Vmas, ok, deadlock, end_of, virt_base, virt_end, alloc_vma, create_vma, search, use_gap,
  merge_right, at_found, vmalloc_at, vmalloc, free_range,
}
use pzos.Vmem.Areas.{AreAreas, IsClear}
use pzos.Vmem.Place.{vmalloc_at-IsClear}
use pzos.Vmem.Ends.{Ends, vmalloc_at-Ends}
use pzos.Vmem.Free.{free_range-back, free_range-front, free_range-middle}

abbrev empty : Vma
empty = record { base = 0; size = 0; flags = 0; next = 0; prev = 0 }

-- Three pages, and the pageinfo structures.
abbrev pages_area : Vma
pages_area = record { base = virt_base; size = 0x3000; flags = 3; next = 2; prev = 0 }

abbrev pageinfo_area : Vma
pageinfo_area = record {
  base = 0xfffff00000000000;
  size = 0x80000000000;
  flags = 11;
  next = 0;
  prev = 1;
}

-- The nodes 1 and 2 in use, and 3 free.
abbrev two_areas : Vmas
two_areas = record {
  node = λ i. if i == 1 then pages_area else if i == 2 then pageinfo_area else empty;
  vma_list = 1;
  vma_free_list = 3;
}

two_areas-AreAreas : AreAreas two_areas.node 1 0 (1 ∷ 2 ∷ [])
two_areas-AreAreas = (
  refl,
  omega arith,
  omega arith,
  omega arith,
  (refl, omega arith, omega arith, omega arith, refl),
)

-- Two pages with the same flags go behind the first area, which grows.
abbrev grown : Vmas
grown = record two_areas {
  node = λ i.
      if 1 == i
      then record (two_areas.node i) { size = ((two_areas.node i).size + 0x2000) % 2 ^ 64 }
      else two_areas.node i;
}

vmalloc_grows : vmalloc 9 2 3 two_areas ≡ ok (virt_base + 0x3000) grown
unfolding vmalloc vmalloc_at search at_found use_gap merge_right
vmalloc_grows = refl

-- Without a free node an area with other flags is a deadlock.
vmalloc_deadlocks : vmalloc 9 2 1 (record two_areas { vma_free_list = 0 }) ≡ deadlock
unfolding vmalloc vmalloc_at search at_found use_gap create_vma alloc_vma
vmalloc_deadlocks = refl

vmalloc_at-IsClear_example : IsClear two_areas.node (virt_base + 0x3000) 0x2000 (1 ∷ 2 ∷ [])
unfolding vmalloc_at search at_found use_gap merge_right
vmalloc_at-IsClear_example =
    vmalloc_at-IsClear 9 virt_base virt_end 2 3 (virt_base + 0x3000) (1 ∷ 2 ∷ []) two_areas grown
      two_areas-AreAreas (omega arith) (omega arith) (omega arith) refl

vmalloc_at-Ends_example : Ends (vmalloc_at 9 virt_base virt_end 5 1 two_areas)
vmalloc_at-Ends_example =
    vmalloc_at-Ends 9 virt_base virt_end 5 1 (1 ∷ 2 ∷ []) two_areas
      (refl, omega arith, (refl, omega arith, refl)) (omega arith) (omega arith)

free_range-back_test :
    (t : Vmas) × (free_range (virt_base + 0x2000) 0x1000 1 two_areas ≡ ok tt t)
    × ((t.node 1).base ≡ virt_base)
    × (end_of (t.node 1) ≡ virt_base + 0x2000)
    × ((i : ℕ) → i ≢ 1 → t.node i ≡ two_areas.node i)
free_range-back_test =
    free_range-back two_areas 1 (virt_base + 0x2000) 0x1000 (omega arith) (omega arith)
      (omega arith) (omega arith) refl

-- Of three pages one is freed, and the area ends a page too far up.
free_range-front_test :
    (t : Vmas) × (free_range virt_base 0x1000 1 two_areas ≡ ok tt t)
    × ((t.node 1).base ≡ virt_base + 0x1000)
    × ((t.node 1).base + (t.node 1).size ≡ virt_base + 0x4000)
free_range-front_test =
    free_range-front two_areas 1 virt_base 0x1000 (omega arith) (omega arith) (omega arith) refl
      (omega arith)

free_range-middle_test :
    (t : Vmas) × (free_range (virt_base + 0x1000) 0x1000 1 two_areas ≡ ok tt t)
    × (end_of (t.node 1) ≡ virt_base + 0x1000)
    × ((t.node 1).next ≡ 3)
    × ((t.node 3).base ≡ virt_base + 0x2000)
    × ((t.node 3).size ≡ 2 ^ 64 - 0x1000)
free_range-middle_test =
    free_range-middle two_areas 1 (virt_base + 0x1000) 0x1000 (omega arith) (omega arith)
      (omega arith) (omega arith) (omega arith) (omega arith) (omega arith)
