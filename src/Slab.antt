-- ===== src/Slab.antt =====
-- kernel/src/slab.c and kernel/src/kmalloc.c: objects of one size carved from pages of the page
-- allocator, with the free list running through the free objects. Memory is a function from addresses
-- to 64-bit words, of which the code reads and writes those at multiples of 8.
pub mod Chain
pub mod Sizes
pub mod Carve
pub mod Alloc
pub mod Kmalloc
mod Tests
use pzos.Base.{ℕ, zero, suc, ◌+◌, ◌-◌, ◌*◌, ◌/◌, ◌%◌, ◌^◌, bit_and, Bool, true, false, ◌&&◌, ◌||◌}
use pzos.Base.{Option, none, some, not, ltb, leb, ◌==◌, if◌then◌else◌}
use pzos.Mman.{Pages, Outcome, ok, panic, stuck, page_size, alloc_page, update}

-- slabinfo_t, less its name and its lock.
pub record Slab : Type 0 where
  pub obj_size : ℕ
  pub free_list : ℕ

-- `slabs` holds the slabinfo_t at each address, `slab_page` and `owner` the flag PAGEINFO_SLAB and the
-- field slab.owner of each page's pageinfo.
pub record Heap : Type 0 where
  pub word : ℕ → ℕ
  pub slabs : ℕ → Slab
  pub slab_page : ℕ → Bool
  pub owner : ℕ → ℕ
  pub pages : Pages

abbrev pub set_slab : ℕ → Slab → Heap → Heap
set_slab a v h = record h { slabs = λ i. if a == i then v else h.slabs i }

-- The size of a slabinfo_t with its padding, that of global_slab's objects.
abbrev pub slabinfo_size : ℕ
slabinfo_size = 32

-- `while (size < obj_size) size <<= 1`
unfoldable pub double_from : ℕ → ℕ → ℕ → ℕ
double_from zero size obj_size = size
double_from (suc f) size obj_size =
    let next = double_from f (size * 2 % 2 ^ 64) obj_size in
    if ltb size obj_size then next else size

-- The size of the objects of a new slab.
unfoldable pub round_size : ℕ → ℕ
round_size obj_size =
    if ltb obj_size 8
    then 8
    else if bit_and obj_size (obj_size - 1) == 0
    then obj_size
    else double_from 64 8 obj_size

-- The loop that links the objects of a page; each round moves on by `size`, at least 1.
unfoldable pub link_from : ℕ → ℕ → ℕ → ℕ → (ℕ → ℕ) → ℕ → ℕ
link_from zero base size offset word = word
link_from (suc f) base size offset word =
    let next =
      link_from f base size (offset + size) (update word (base + offset - size) (base + offset)) in
    if ltb offset page_size then next else word

unfoldable pub carve : ℕ → ℕ → (ℕ → ℕ) → ℕ → ℕ
carve base size word = update (link_from page_size base size size word) (base + page_size - size) 0

module _ (hhdm_off : ℕ) where
  -- __va and __pa
  abbrev pub va : ℕ → ℕ
  va phys = (phys + hhdm_off) % 2 ^ 64

  abbrev pub pa : ℕ → ℕ
  pa virt = (virt + (2 ^ 64 - hhdm_off)) % 2 ^ 64

  -- A new page of objects, whose pageinfo names the slab at `a`.
  unfoldable pub add_page : ℕ → ℕ → Pages → Heap → Heap
  add_page a phys pages h =
      let base = va phys in
      let slab = h.slabs a in
      let page = pa base / page_size in
      record (set_slab a (record slab { free_list = base }) h) {
        word = carve base slab.obj_size h.word;
        slab_page = λ i. if page == i then true else h.slab_page i;
        owner = update h.owner page a;
        pages = pages;
      }

  -- `if (slab->free_list == NULL)`; `none` is a panic of alloc_page.
  unfoldable pub refill : ℕ → Heap → Option Heap
  refill a h =
      if (h.slabs a).free_list == 0
      then (elim (alloc_page h.pages) [
        | ok phys pages ↦ some (add_page a phys pages h)
        | panic ↦ none
        | stuck ↦ none
      ])
      else some h

  abbrev pub pop : ℕ → Heap → ℕ × Heap
  pop a h =
      let obj = (h.slabs a).free_list in
      (obj, set_slab a (record (h.slabs a) { free_list = h.word obj }) h)

  unfoldable pub slab_alloc : ℕ → Heap → Option (ℕ × Heap)
  slab_alloc a h = elim (refill a h) [ none ↦ none | some h' ↦ some (pop a h') ]

  abbrev pub zero_range : ℕ → ℕ → (ℕ → ℕ) → ℕ → ℕ
  zero_range p n word i = if leb p i && ltb i (p + n) then 0 else word i

  abbrev pub zeroed : ℕ → ℕ × Heap → ℕ × Heap
  zeroed a (obj, h) =
      (obj, if obj == 0 then h else record h { word = zero_range obj (h.slabs a).obj_size h.word })

  unfoldable pub slab_zalloc : ℕ → Heap → Option (ℕ × Heap)
  slab_zalloc a h = elim (slab_alloc a h) [ none ↦ none | some r ↦ some (zeroed a r) ]

  unfoldable pub slab_free2 : ℕ → ℕ → Heap → Heap
  slab_free2 a obj h = record (set_slab a (record (h.slabs a) { free_list = obj }) h) {
    word = update h.word obj (h.slabs a).free_list;
  }

  -- `none` is a panic.
  unfoldable pub slab_free : ℕ → Heap → Option Heap
  slab_free obj h =
      let page = pa obj / page_size in
      if h.slab_page page then some (slab_free2 (h.owner page) obj h) else none

  abbrev pub install : ℕ → ℕ × Heap → ℕ × Heap
  install obj_size (a, h) = (
    a,
    if a == 0 then h else set_slab a (record { obj_size = round_size obj_size; free_list = 0 }) h,
  )

  -- The address 0 is NULL; `global` is the address of global_slab.
  unfoldable pub slab_create : ℕ → ℕ → Heap → Option (ℕ × Heap)
  slab_create global obj_size h =
      if obj_size == 0 || ltb (page_size / 2) obj_size
      then some (0, h)
      else (elim (slab_alloc global h) [ none ↦ none | some r ↦ some (install obj_size r) ])
