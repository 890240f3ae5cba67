-- ===== src/Mman.antt =====
-- kernel/arch/x86_64/mman.c: the physical page allocator, a bitmap for low memory and a stack of
-- page numbers for high memory, as they lie one behind the other in memory.
pub mod Bitmap
pub mod Entries
pub mod Scan
pub mod Single
pub mod Aligned
pub mod Contig
pub mod Startup
pub mod Filling
pub mod Pushing
pub mod Initial
pub mod Reclaiming
mod Tests
use pzos.Base.{ℕ, zero, suc, ◌+◌, ◌-◌, ◌*◌, ◌/◌, ◌%◌, ◌^◌, bit_and, bit_or}
use pzos.Base.{Bool, true, false, ◌||◌, Option, none, some}
use pzos.Base.{ltb, leb, ◌==◌, if◌then◌else◌}
use pzos.Base.Bits.{all_but}

abbrev pub page_size : ℕ
page_size = 4096

-- LOWMEM_SIZE
abbrev pub lowmem_size : ℕ
lowmem_size = 0x10000000

-- The pages of low memory; `max_page` of alloc_aligned.
abbrev pub max_page : ℕ
max_page = lowmem_size / page_size

-- A count of bytes, with which alloc_page indexes an array of 64-bit words.
abbrev pub bitmap_size : ℕ
bitmap_size = lowmem_size / 0x1000 / 8

-- Where the page stack begins, in words from `bitmap`.
abbrev pub stack_word : ℕ
stack_word = bitmap_size / 8

-- `words i` is the 64-bit word i from `bitmap` on: the bitmap, and behind it the page stack, two
-- 32-bit entries to a word. `depth` is page_stack + 1 - page_stack_base.
pub record Pages : Type 0 where
  pub words : ℕ → ℕ
  pub depth : ℕ

-- `stuck` is a loop that never ends.
pub data Outcome (A : Type 0) : Type 0 where
  ok : A → Pages → Outcome A
  panic : Outcome A
  stuck : Outcome A

abbrev pub update : (ℕ → ℕ) → ℕ → ℕ → ℕ → ℕ
update ws i v j = if i == j then v else ws j

-- The index of the lowest bit that is set.
pub ctz_from : ℕ → ℕ → ℕ
ctz_from zero w = 0
ctz_from (suc n) w = let rest = ctz_from n (w / 2) in if w % 2 == 1 then 0 else suc rest

pub ctz : ℕ → ℕ
unfolding ctz_from
ctz w = ctz_from 64 w

-- The index of the highest bit that is set, by the instruction `bsr`.
pub bsr_from : ℕ → ℕ → ℕ
bsr_from zero w = 0
bsr_from (suc n) w = let rest = bsr_from n (w / 2) in if ltb w 2 then 0 else suc rest

pub bsr : ℕ → ℕ
unfolding bsr_from
bsr w = bsr_from 64 w

-- The low half of a word is the entry at the lower address.
unfoldable pub entry : (ℕ → ℕ) → ℕ → ℕ
entry ws k =
    let w = ws (stack_word + k / 2) in if k % 2 == 0 then w % 2 ^ 32 else w / 2 ^ 32 % 2 ^ 32

pub set_entry : (ℕ → ℕ) → ℕ → ℕ → ℕ → ℕ
set_entry ws k v =
    let i = stack_word + k / 2 in
    let w = ws i in
    update ws i
      (if k % 2 == 0 then w / 2 ^ 32 * 2 ^ 32 + v % 2 ^ 32 else v % 2 ^ 32 * 2 ^ 32 + w % 2 ^ 32)

pub mark_free : (ℕ → ℕ) → ℕ → ℕ → ℕ
mark_free ws p = update ws (p / 64) (bit_or (ws (p / 64)) (2 ^ (p % 64)))

pub mark_used : (ℕ → ℕ) → ℕ → ℕ → ℕ
mark_used ws p = update ws (p / 64) (bit_and (ws (p / 64)) (all_but (p % 64)))

pub find_word : ℕ → ℕ → (ℕ → ℕ) → Option ℕ
find_word zero i ws = none
find_word (suc n) i ws = let rest = find_word n (i + 1) ws in if ws i == 0 then rest else some i

-- The stack entry is a uint32_t, and so is its product with 0x1000.
unfoldable pub alloc_page : Pages → Outcome ℕ
alloc_page s =
    if s.depth == 0
    then (elim (find_word bitmap_size 0 s.words) [
      | none ↦ panic
      | some i ↦
          ok ((i * 64 + ctz (s.words i)) * 0x1000)
            (record s { words = update s.words i (bsr (s.words i)) })
    ])
    else ok (entry s.words (s.depth - 1) * 0x1000 % 2 ^ 32) (record s { depth = s.depth - 1 })

pub free_page : ℕ → Pages → Outcome (Unit {0})
free_page ptr s =
    if ltb ptr lowmem_size
    then ok tt (record s { words = mark_free s.words (ptr / 0x1000) })
    else if leb 1 s.depth
    then ok tt (record s { words = set_entry s.words s.depth (ptr / 0x1000); depth = s.depth + 1 })
    else panic

-- The first inner loop of alloc_aligned, on the pages from `p`, `n` of them left.
pub window_free : ℕ → ℕ → (ℕ → ℕ) → Bool
window_free zero p ws = true
window_free (suc n) p ws =
    let rest = window_free n (p + 1) ws in
    if bit_and (ws (p / 64)) (2 ^ (p % 64)) == 0 then false else rest

pub use_window : ℕ → ℕ → (ℕ → ℕ) → ℕ → ℕ
use_window zero p ws = ws
use_window (suc n) p ws = use_window n (p + 1) (mark_used ws p)

pub free_window : ℕ → ℕ → (ℕ → ℕ) → ℕ → ℕ
free_window zero p ws = ws
free_window (suc n) p ws = free_window n (p + 1) (mark_free ws p)

pub aligned_from : ℕ → ℕ → ℕ → ℕ → Pages → Outcome ℕ
aligned_from zero start npages align s = stuck
aligned_from (suc f) start npages align s =
    let next = aligned_from f ((start + align) % 2 ^ 64) npages align s in
    if leb ((start + npages) % 2 ^ 64) max_page
    then (if window_free npages start s.words
        then ok (start * 0x1000) (record s { words = use_window npages start s.words })
        else next)
    else panic

pub alloc_aligned : ℕ → ℕ → Pages → Outcome ℕ
alloc_aligned npages align s =
    if npages == 0 then ok 0 s else aligned_from (max_page + 2) 0 npages align s

pub alloc_contig : ℕ → Pages → Outcome ℕ
alloc_contig npages = alloc_aligned npages 1

pub free_contig : ℕ → ℕ → Pages → Pages
free_contig ptr npages s =
    if npages == 0 || ptr == 0
    then s
    else record s { words = free_window npages (ptr / 0x1000) s.words }
