-- ===== src/Paging/Handler.antt =====
-- What page_fault_handler comes to on each of its ways.
use pzos.Base.{ℕ, zero, suc, ◌+◌, ◌%◌, ◌^◌, ◌≤◌, ◌<◌, ◌≡◌, ◌≢◌, ◌⊎◌, arith}
use pzos.Base.{some, Bool, true, false, inl, inr, ◌&&◌, ltb, leb, bit_and}
use pzos.Mman.{alloc_page}
use pzos.Mman
use pzos.Vmem.{Vma, Vmas, end_of}
use pzos.Paging.{Tables, ok, panic, page_of}
use pzos.Paging.Walk.{walk}
use pzos.Paging.Entry.{IsFrame}
use pzos.Paging.Map.{HasTables}
use pzos.Paging.Fault.{
  page_fault_handler, find_area, demand_page-mapped, Outside, pf_user, vma_zero, pageinfo_base,
}

abbrev covers : Vma → ℕ → Bool
covers v addr = leb v.base addr && ltb addr (end_of v)

-- `vma` is the node `n` behind `head`, and the first that covers `addr`.
abbrev pub FirstCovering : Vmas → ℕ → ℕ → ℕ → ℕ → Type 0
FirstCovering s addr vma zero head = (head ≡ vma) × (head ≢ 0) × (covers (s.node head) addr ≡ true)
FirstCovering s addr vma (suc n) head =
    (head ≢ 0) × (covers (s.node head) addr ≡ false) × FirstCovering s addr vma n (s.node head).next

-- The list from `head` on has `n` nodes, and none covers `addr`.
abbrev pub NoneCovering : Vmas → ℕ → ℕ → ℕ → Type 0
NoneCovering s addr zero head = head ≡ 0
NoneCovering s addr (suc n) head =
    (head ≢ 0) × (covers (s.node head) addr ≡ false) × NoneCovering s addr n (s.node head).next

find_area-first :
    (s : Vmas) (addr vma n f head : ℕ)
    → FirstCovering s addr vma n head
    → n < f
    → (find_area f addr head s ≡ some vma) × (vma ≢ 0)
unfolding find_area
find_area-first s addr vma n zero head c lt = absurd (omega arith)
find_area-first s addr vma zero (suc f) head c lt = ground arith
find_area-first s addr vma (suc n) (suc f) head c lt =
    ground (arith, find_area-first s addr vma n f (s.node head).next c.2)

find_area-none :
    (s : Vmas) (addr n f head : ℕ)
    → NoneCovering s addr n head
    → n < f
    → find_area f addr head s ≡ some 0
unfolding find_area
find_area-none s addr n zero head c lt = absurd (omega arith)
find_area-none s addr zero (suc f) head c lt = ground arith
find_area-none s addr (suc n) (suc f) head c lt =
    ground (arith, find_area-none s addr n f (s.node head).next c.2)

-- A fault of the kernel in an area other than that of the pageinfo, with a free frame and the tables of
-- the page in place: the handler returns, the processor finds the new frame at the address, and the frame is cleared
-- if the area has VMA_ZERO.
pub page_fault_handler-mapped :
    (f n error addr vma phys : ℕ) (s : Vmas) (t : Tables) (p : Mman.Pages)
    → bit_and error pf_user ≡ 0
    → FirstCovering s addr vma n s.vma_list
    → n < f
    → (s.node vma).base ≢ pageinfo_base
    → addr < 2 ^ 64
    → 0x1000 ≤ addr
    → HasTables (page_of addr) t
    → IsFrame phys
    → alloc_page t.pages ≡ Mman.ok phys p
    → Outside phys (page_of addr) t
    → (u : Tables) × (page_fault_handler f error addr s t ≡ some (ok tt u))
      × (walk u addr ≡ some (phys + addr % 2 ^ 12))
      × (bit_and (s.node vma).flags vma_zero ≢ 0
          → (j : ℕ) → phys ≤ j
          → j < phys + 0x1000
          → u.words j ≡ 0)
unfolding page_fault_handler
page_fault_handler-mapped f n error addr vma phys s t p kernel c lt other small high h frame given
      o =
    let (found, some_area) = find_area-first s addr vma n f s.vma_list c lt in
    let (u, done, at, clear) =
      demand_page-mapped addr phys t p small high h frame given (s.node vma) other o in
    (u, ground (arith, kernel, found, some_area, done), at, clear)

-- A fault of a user, or where no area is, is a panic.
pub page_fault_handler-panic :
    (f n error addr : ℕ) (s : Vmas) (t : Tables)
    → (bit_and error pf_user ≢ 0) ⊎ (NoneCovering s addr n s.vma_list × (n < f))
    → page_fault_handler f error addr s t ≡ some panic
unfolding page_fault_handler
page_fault_handler-panic f n error addr s t (inl user) = ground arith
page_fault_handler-panic f n error addr s t (inr nowhere) =
    ground (arith, find_area-none s addr n f s.vma_list nowhere.0 nowhere.1)
