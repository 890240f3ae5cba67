-- ===== src/Paging.antt =====
-- kernel/arch/x86_64/paging.c and paging.h: the page tables. Physical memory is a function from the
-- address of a 64-bit word to the word; the direct map at hhdm_off makes __va(phys) that memory, and the
-- recursive entry 0x1fe makes LINADDR_PML4E_PTR(virt) the word of the table in cr3. The locks, the log
-- and the TLB are left out.
pub mod Address
pub mod Walk
pub mod Unmap
pub mod Entry
pub mod Map
pub mod Early
pub mod Fault
pub mod Handler
mod Tests
use pzos.Base.{ℕ, zero, suc, ◌+◌, ◌-◌, ◌*◌, ◌/◌, ◌%◌, ◌^◌, bit_and, bit_or, Option, none, some}
use pzos.Base.{Bool, true, false, ltb, leb, ◌==◌, ◌&&◌, not, if◌then◌else◌}
use pzos.Mman.{Pages, Outcome, alloc_page, free_page}
use pzos.Mman

abbrev pub page_present : ℕ
page_present = 0x1

abbrev pub page_rw : ℕ
page_rw = 0x2

abbrev pub page_ps : ℕ
page_ps = 0x80

abbrev pub page_nx : ℕ
page_nx = 0x8000000000000000

abbrev pub pml4_index : ℕ → ℕ
pml4_index virt = bit_and (virt / 2 ^ 39) 0x1ff

abbrev pub pdpt_index : ℕ → ℕ
pdpt_index virt = bit_and (virt / 2 ^ 30) 0x1ff

abbrev pub pd_index : ℕ → ℕ
pd_index virt = bit_and (virt / 2 ^ 21) 0x1ff

abbrev pub pt_index : ℕ → ℕ
pt_index virt = bit_and (virt / 2 ^ 12) 0x1ff

-- TABLE_ENTRY_ADDR
abbrev pub entry_addr : ℕ → ℕ
entry_addr e = bit_and e 0x000ffffffffff000

-- `& -0x1000LL`
abbrev pub page_of : ℕ → ℕ
page_of a = bit_and a 0xfffffffffffff000

abbrev pub is_present : ℕ → Bool
is_present e = not (bit_and e page_present == 0)

abbrev pub is_large : ℕ → Bool
is_large e = not (bit_and e page_ps == 0)

-- `refcount` is the field of the pageinfo of each page, by its number.
pub record Tables : Type 0 where
  pub words : ℕ → ℕ
  pub cr3 : ℕ
  pub pages : Pages
  pub refcount : ℕ → ℕ

pub data Result (A : Type 0) : Type 0 where
  ok : A → Tables → Result A
  panic : Result A
  stuck : Result A

abbrev pub M : Type 0 → Type 0
M A = Tables → Result A

infixl 5 ◌>>=◌ ◌>>◌
abbrev pub ◌>>=◌ : {A B : Type 0} → M A → (A → M B) → M B
◌>>=◌ m f t = elim (m t) [ ok a u ↦ f a u | panic ↦ panic | stuck ↦ stuck ]

abbrev pub ◌>>◌ : {A B : Type 0} → M A → M B → M B
m >> k = m >>= λ _. k

abbrev pub return : {A : Type 0} → A → M A
return a t = ok a t

abbrev pub when : Bool → M (Unit {0}) → M (Unit {0})
when true m = m
when false m = return tt

abbrev pub unless : Bool → M (Unit {0}) → M (Unit {0})
unless b m = when (not b) m

abbrev pub read : ℕ → M ℕ
read a t = ok (t.words a) t

abbrev pub write : ℕ → ℕ → M (Unit {0})
write a v t = ok tt (record t { words = λ j. if j == a then v else t.words j })

-- `memset((void *)__va(addr), 0, 0x1000)`
abbrev pub zero_page : ℕ → M (Unit {0})
zero_page a t =
    ok tt (record t { words = λ j. if leb a j && ltb j (a + 0x1000) then 0 else t.words j })

abbrev pub from_pages : {A : Type 0} → Outcome A → M A
from_pages (Mman.ok a p) t = ok a (record t { pages = p })
from_pages Mman.panic t = panic
from_pages Mman.stuck t = stuck

abbrev pub take_page : M ℕ
take_page t = from_pages (alloc_page t.pages) t

abbrev pub give_page : ℕ → M (Unit {0})
give_page a t = from_pages (free_page a t.pages) t

abbrev pub set_count : ℕ → ℕ → Tables → Tables
set_count page n t = record t { refcount = λ j. if j == page then n else t.refcount j }

unfoldable pub inc_page : ℕ → M ℕ
inc_page phys t =
    let n = (t.refcount (phys / 0x1000) + 1) % 2 ^ 32 in ok n (set_count (phys / 0x1000) n t)

-- The result is an int.
unfoldable pub dec_page : ℕ → M ℕ
dec_page phys t =
    let n = t.refcount (phys / 0x1000) in
    if n == 0 then panic else ok (n - 1) (set_count (phys / 0x1000) (n - 1) t)

abbrev pub is_positive : ℕ → Bool
is_positive n = ltb 0 n && ltb n (2 ^ 31)

-- A table for the entry at `e`.
unfoldable pub new_table : ℕ → M (Unit {0})
new_table e = do
  addr ← take_page
  write e (bit_or (bit_or addr page_present) page_rw)
  zero_page addr

-- The address of the entry for an index in the table that the entry at `e` names.
unfoldable pub entry_below : ℕ → ℕ → M ℕ
entry_below e index t = ok (entry_addr (t.words e) + 8 * index) t

abbrev pub present_at : ℕ → M Bool
present_at e t = ok (is_present (t.words e)) t

-- A table for the entry at `e` of the table that the entry at `parent` names.
unfoldable pub counted_table : ℕ → ℕ → M (Unit {0})
unfolding new_table inc_page
counted_table parent e = do
  p ← present_at e
  unless p (do new_table e; w ← read parent; n ← inc_page (entry_addr w); return tt)

abbrev pub top_entry : ℕ → M ℕ
top_entry virt t = ok (t.cr3 + 8 * pml4_index virt) t

-- The mapping of a page whose entry is at `pte`, in the table that the entry at `pde` names.
unfoldable pub set_page : ℕ → ℕ → ℕ → ℕ → M (Unit {0})
unfolding inc_page
set_page pde pte phys flags = do
  old ← read pte
  let same = is_present old && (entry_addr old == phys)
  unless same (do
    unless (is_present old) (do w ← read pde; n ← inc_page (entry_addr w); return tt)
    write pte (bit_or (bit_or phys page_present) flags)
    n ← inc_page phys
    return tt)

unfoldable pub map_page : ℕ → ℕ → ℕ → M (Unit {0})
unfolding new_table entry_below counted_table set_page
map_page virt_addr phys_addr flags = if virt_addr == 0 then (λ t. panic) else (do
  let phys = page_of phys_addr
  let virt = page_of virt_addr
  pml4e ← top_entry virt
  p ← present_at pml4e
  unless p (new_table pml4e)
  pdpte ← entry_below pml4e (pdpt_index virt)
  counted_table pml4e pdpte
  pde ← entry_below pdpte (pd_index virt)
  counted_table pdpte pde
  pte ← entry_below pde (pt_index virt)
  set_page pde pte phys flags)

-- The tables above an entry that has been cleared. `e` is the entry that names its table.
unfoldable pub release_table : ℕ → M (Unit {0}) → M (Unit {0})
unfolding dec_page
release_table e above = do
  w ← read e
  n ← dec_page (entry_addr w)
  unless (is_positive n) (do give_page (entry_addr w); write e 0; above)

unfoldable pub unmap_page : ℕ → M (Unit {0})
unfolding dec_page entry_below release_table
unmap_page virt_addr = do
  let virt = page_of virt_addr
  pml4e ← top_entry virt
  p4 ← present_at pml4e
  when p4 (do
    pdpte ← entry_below pml4e (pdpt_index virt)
    p3 ← present_at pdpte
    when p3 (do
      pde ← entry_below pdpte (pd_index virt)
      p2 ← present_at pde
      when p2 (do
        pte ← entry_below pde (pt_index virt)
        w ← read pte
        when (is_present w) (do
          n ← dec_page (entry_addr w)
          unless (is_positive n) (do
            write pte 0
            release_table pde (release_table pdpte (release_table pml4e (return tt))))))))

unfoldable pub is_mapped : ℕ → Tables → Bool
is_mapped virt_addr t =
    let virt = page_of virt_addr in
    let w4 = t.words (t.cr3 + 8 * pml4_index virt) in
    let w3 = t.words (entry_addr w4 + 8 * pdpt_index virt) in
    let w2 = t.words (entry_addr w3 + 8 * pd_index virt) in
    let w1 = t.words (entry_addr w2 + 8 * pt_index virt) in
    if not (is_present w4)
    then false
    else if not (is_present w3)
    then false
    else if is_large w3
    then true
    else if not (is_present w2)
    then false
    else if is_large w2
    then true
    else is_present w1
