-- ===== src/Mman/Startup.antt =====
-- kernel/arch/x86_64/mman.c, mman_init: what it makes of the memory map of the boot loader, before it
-- makes the page tables (init_pages) and after it (reclaim). Addresses are physical.
use pzos.Base.{
  ℕ, zero, suc, ◌+◌, ◌-◌, ◌*◌, ◌/◌, ◌%◌, ◌^◌, min, max, bit_or, Bool, true, false, ◌&&◌,
}
use pzos.Base.{Option, none, some, List, [], ◌∷◌, ltb, leb, ◌==◌, if◌then◌else◌}
use pzos.Mman.{Pages, lowmem_size, max_page, bitmap_size, update, set_entry, mark_free}

-- The kinds of an entry of the memory map, in the order of MEM_TYPES.
pub data Kind : Type 0 where
  usable : Kind
  reserved : Kind
  acpi_reclaimable : Kind
  acpi_nvs : Kind
  bad_memory : Kind
  bootloader_reclaimable : Kind
  executable : Kind
  framebuffer : Kind

pub record Region : Type 0 where
  pub base : ℕ
  pub length : ℕ
  pub kind : Kind

abbrev pub is_usable : Kind → Bool
is_usable usable = true
is_usable _ = false

abbrev pub is_reclaimable : Kind → Bool
is_reclaimable bootloader_reclaimable = true
is_reclaimable _ = false

abbrev pub is_counted : Kind → Bool
is_counted usable = true
is_counted acpi_reclaimable = true
is_counted bootloader_reclaimable = true
is_counted _ = false

unfoldable pub mem_size : List Region → ℕ → ℕ
mem_size [] n = n
mem_size (r ∷ rs) n = mem_size rs (if is_counted r.kind then (n + r.length) % 2 ^ 64 else n)

-- The pages for the bitmap and the page stack.
abbrev pub reserve_for : ℕ → ℕ
reserve_for size = (size / 0x1000 * 4 + bitmap_size + 0xfff) / 0x1000

-- Where the bitmap goes.
unfoldable pub find_place : ℕ → List Region → Option ℕ
find_place reserve [] = none
find_place reserve (r ∷ rs) =
    let rest = find_place reserve rs in
    if is_usable r.kind
      && ltb ((max r.base lowmem_size + reserve * 0x1000) % 2 ^ 64) ((r.base + r.length) % 2 ^ 64)
    then some (max r.base lowmem_size)
    else rest

abbrev pub start_page : Region → ℕ
start_page r = r.base / 0x1000

abbrev pub end_page : Region → ℕ
end_page r = (r.base + r.length + 2 ^ 64 - 1) % 2 ^ 64 / 0x1000

-- `rol`, by one bit.
abbrev pub rol : ℕ → ℕ
rol mask = mask * 2 % 2 ^ 64 + mask / 2 ^ 63

-- The loop over the pages from `j`, with `n` of them left.
unfoldable pub fill_bits : ℕ → ℕ → ℕ → (ℕ → ℕ) → ℕ → ℕ
fill_bits zero j mask ws = ws
fill_bits (suc n) j mask ws =
    fill_bits n (j + 1) (rol mask) (update ws (j / 64) (bit_or (ws (j / 64)) mask))

unfoldable pub fill_bitmap : List Region → (ℕ → ℕ) → ℕ → ℕ
unfolding fill_bits
fill_bitmap [] ws = ws
fill_bitmap (r ∷ rs) ws =
    let filled =
      fill_bits (min (end_page r) (max_page - 1) + 1 - start_page r) (start_page r)
        (2 ^ (start_page r % 64)) ws in
    fill_bitmap rs (if is_usable r.kind then filled else ws)

-- `memset(bitmap, 0, bitmap_size)`
abbrev pub clear_bitmap : (ℕ → ℕ) → ℕ → ℕ
clear_bitmap ws i = if ltb i (bitmap_size / 8) then 0 else ws i

-- `*++page_stack = j`
abbrev pub push_page : ℕ → Pages → Pages
push_page j s = record { words = set_entry s.words s.depth j; depth = s.depth + 1 }

-- `first` is the page of the bitmap.
module _ (first reserve : ℕ) where
  -- The pages from `j` down to `low`, which is not 0, with at most `n` rounds left.
  unfoldable pub push_pages : ℕ → ℕ → ℕ → Pages → Pages
  push_pages zero j low s = s
  push_pages (suc n) j low s =
      let next = if j == first + reserve - 1 then (j + 2 ^ 64 - reserve) % 2 ^ 64 else j in
      let rest =
        push_pages n ((next + 2 ^ 64 - 1) % 2 ^ 64) low
          (if ltb next low then s else push_page next s) in
      if leb low j then rest else s

  -- From the last region to the first.
  unfoldable pub push_regions : List Region → Pages → Pages
  unfolding push_pages
  push_regions [] s = s
  push_regions (r ∷ rs) s =
      let t = push_regions rs s in
      let low = max (start_page r) max_page in
      if is_usable r.kind then push_pages (end_page r + 1 - low) (end_page r) low t else t

-- `none` is the panic.
unfoldable pub init_pages : List Region → (ℕ → ℕ) → Option Pages
unfolding mem_size find_place fill_bitmap push_regions
init_pages rs ws =
    let reserve = reserve_for (mem_size rs 0) in
    elim (find_place reserve rs) [
      | none ↦ none
      | some place ↦ some (
          push_regions (place / 0x1000) reserve rs
            (record { words = fill_bitmap rs (clear_bitmap ws); depth = 0 }))
    ]

-- One page of the loop. `top` is `stack_base / 0x1000`.
abbrev pub give_back : ℕ → ℕ → Pages → Pages
give_back top j s =
    if j == top
    then s
    else if ltb j max_page
    then record s { words = mark_free s.words j }
    else push_page j s

unfoldable pub reclaim_pages : ℕ → ℕ → ℕ → Pages → Pages
reclaim_pages top zero j s = s
reclaim_pages top (suc n) j s = reclaim_pages top n (j + 1) (give_back top j s)

unfoldable pub reclaim : ℕ → List Region → Pages → Pages
unfolding reclaim_pages
reclaim top [] s = s
reclaim top (r ∷ rs) s =
    let more = reclaim_pages top (end_page r + 1 - start_page r) (start_page r) s in
    reclaim top rs (if is_reclaimable r.kind then more else s)
