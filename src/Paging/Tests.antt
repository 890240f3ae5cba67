-- ===== src/Paging/Tests.antt =====
-- Page tables at 0x1000 to 0x4fff, and the runs of the operations on them.
use pzos.Base.{ℕ, ◌+◌, ◌*◌, ◌%◌, ◌^◌, ◌≤◌, ◌<◌, ◌≡◌, ◌≢◌, refl, arith, Option, none, some, inr}
use pzos.Base.{true, false, ◌==◌, if◌then◌else◌, bit_and}
use pzos.Mman.{Pages, alloc_page, entry}
use pzos.Mman
use pzos.Vmem.{Vma, Vmas}
use pzos.Paging.{
  Tables, Result, ok, panic, stuck, map_page, unmap_page, is_mapped, inc_page, dec_page, new_table,
  set_page, set_count, counted_table, entry_below, release_table, page_of, entry_addr, pml4_index,
  pdpt_index, pd_index, pt_index,
}
use pzos.Paging.Early.{early_map, size_2m, size_4k}
use pzos.Paging.Address.{build_linaddr, build_linaddr-indices, pml4e_ptr}
use pzos.Paging.Walk.{walk, IsRecursive, is_mapped-walk, pml4e_ptr-walk}
use pzos.Paging.Unmap.{IsPage, unmap_page-shared, unmap_page-last}
use pzos.Paging.Map.{HasTables, map_page-walk, map_page-remap}
use pzos.Paging.Fault.{page_fault_handler, vma_zero}
use pzos.Paging.Handler.{page_fault_handler-mapped, page_fault_handler-panic}

abbrev pages : Pages
pages = record { words = λ i. if i == Mman.stack_word then 0x9 else 0; depth = 1 }

abbrev words : ℕ → ℕ
words a =
    if a == 0x1000
    then 0x2003
    else if a == 0x1ff0
    then 0x1003
    else if a == 0x2000
    then 0x3003
    else if a == 0x3010
    then 0x4003
    else if a == 0x4008
    then 0x7003
    else 0

-- The page at 0x401000 is mapped to the frame at 0x7000, that at 0x400000 is not mapped.
abbrev tables : Tables
tables = record {
  words = words;
  cr3 = 0x1000;
  pages = pages;
  refcount = λ p. if p == 4 then 2 else 1;
}

abbrev shared : Tables
shared = set_count 7 2 tables

abbrev here : ℕ
here = 0x401000

abbrev there : ℕ
there = 0x400000

here-IsPage : IsPage here tables
here-IsPage = record {
  page = refl;
  present4 = refl;
  present3 = refl;
  small3 = refl;
  present2 = refl;
  small2 = refl;
  present1 = refl;
}

shared-IsPage : IsPage here shared
shared-IsPage = record {
  page = refl;
  present4 = refl;
  present3 = refl;
  small3 = refl;
  present2 = refl;
  small2 = refl;
  present1 = refl;
}

there-HasTables : HasTables there tables
there-HasTables = record {
  page = refl;
  present4 = refl;
  present3 = refl;
  small3 = refl;
  present2 = refl;
  small2 = refl;
  apart4 = omega arith;
  apart3 = omega arith;
  apart2 = omega arith;
}

here-HasTables : HasTables here tables
here-HasTables = record {
  page = refl;
  present4 = refl;
  present3 = refl;
  small3 = refl;
  present2 = refl;
  small2 = refl;
  apart4 = omega arith;
  apart3 = omega arith;
  apart2 = omega arith;
}

tables-IsRecursive : IsRecursive tables
tables-IsRecursive = record { names = refl; present = refl; small = refl }

unmapped_run : (is_mapped here tables ≡ true) × (is_mapped there tables ≡ false)
unfolding is_mapped
unmapped_run = (refl, refl)

abbrev walk_after : Result (Unit {0}) → ℕ → Option ℕ
walk_after (ok _ t) virt = walk t virt
walk_after panic virt = none
walk_after stuck virt = none

early_run :
    (walk_after (early_map none 0x600000 0x200000 size_2m 3 tables) 0x612345 ≡ some 0x212345)
    × (walk_after (early_map none 0x405000 0x9000 size_4k 3 tables) 0x405678 ≡ some 0x9678)
unfolding early_map walk
early_run = (refl, refl)

unmap_run : walk_after (unmap_page here tables) here ≡ none
unfolding unmap_page walk
unmap_run = refl

build_linaddr-indices_example :
    let a = build_linaddr 0x1fe 1 2 3 0x45 in
    (pml4_index a ≡ 0x1fe)
    × (pdpt_index a ≡ 1)
    × (pd_index a ≡ 2)
    × (pt_index a ≡ 3)
    × (a % 2 ^ 12 ≡ 0x45)
    × (a < 2 ^ 64)
build_linaddr-indices_example =
    build_linaddr-indices 0x1fe 1 2 3 0x45 (omega arith) (omega arith) (omega arith) (omega arith)
      (omega arith)

pml4e_ptr-walk_test :
    walk tables (pml4e_ptr 0xffff888000001000) ≡ some (0x1000 + 8 * pml4_index 0xffff888000001000)
pml4e_ptr-walk_test = pml4e_ptr-walk tables 0xffff888000001000 tables-IsRecursive

is_mapped-walk_example : is_mapped here tables ≡ pzos.Paging.Walk.is_some (walk tables here)
is_mapped-walk_example = is_mapped-walk tables here (omega arith)

unmap_page-shared_example :
    (unmap_page here shared ≡ ok tt (set_count 7 1 shared))
    × (is_mapped here (set_count 7 1 shared) ≡ true)
unmap_page-shared_example = unmap_page-shared here shared shared-IsPage (omega arith) (omega arith)

unmap_page-last_example :
    (u : Tables) × (unmap_page here tables ≡ ok tt u)
    × (is_mapped here u ≡ false)
    × ((j : ℕ) → j ≢ 0x4008 → u.words j ≡ words j)
unmap_page-last_example =
    unmap_page-last here tables here-IsPage refl (omega arith) (omega arith) (omega arith)
      (omega arith)

map_page-walk_example :
    (u : Tables) × (map_page there 0x9000 3 tables ≡ ok tt u)
    × (walk u there ≡ some 0x9000)
    × ((j : ℕ) → j ≢ 0x4000 → u.words j ≡ words j)
map_page-walk_example =
    map_page-walk there 0x9000 3 tables (omega arith) (omega arith) (refl, omega arith) refl
      there-HasTables

map_page-remap_test :
    (u : Tables) × (map_page here 0x9000 3 tables ≡ ok tt u)
    × (u.refcount 9 ≡ 2)
    × (u.refcount 7 ≡ 1)
map_page-remap_test =
    map_page-remap here 0x9000 3 tables (omega arith) (refl, omega arith) here-HasTables refl
      (omega arith)

abbrev area : Vma
area = record { base = 0x400000; size = 0x2000; flags = 0xb; next = 0; prev = 0 }

abbrev areas : Vmas
areas = record { node = λ a. area; vma_list = 0x10; vma_free_list = 0 }

given : alloc_page pages ≡ Mman.ok 0x9000 (record pages { depth = 0 })
unfolding alloc_page entry
given = refl

page_fault_handler-mapped_example :
    (u : Tables) × (page_fault_handler 2 2 0x400123 areas tables ≡ some (ok tt u))
    × (walk u 0x400123 ≡ some 0x9123)
    × (bit_and 0xb vma_zero ≢ 0 → (j : ℕ) → 0x9000 ≤ j → j < 0xa000 → u.words j ≡ 0)
page_fault_handler-mapped_example =
    page_fault_handler-mapped 2 0 2 0x400123 0x10 0x9000 areas tables (record pages { depth = 0 })
      refl (refl, omega arith, refl) (omega arith) (omega arith) (omega arith) (omega arith)
      there-HasTables (refl, omega arith) given
      (record { out4 = refl; out3 = refl; out2 = refl; out1 = refl })

page_fault_handler-panic_test :
    page_fault_handler 2 0 0x10 (record areas { vma_list = 0 }) tables ≡ some panic
page_fault_handler-panic_test =
    page_fault_handler-panic 2 0 0 0x10 (record areas { vma_list = 0 }) tables
      (inr (refl, omega arith))
