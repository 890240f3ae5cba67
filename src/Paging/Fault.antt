-- ===== src/Paging/Fault.antt =====
-- kernel/arch/x86_64/paging.c, page_fault_handler: a page of an area of virtual memory is mapped when
-- it is first used. The faulting address in cr2 and the error code are arguments; the stores of memset go
-- where the processor's walk leads.
use pzos.Base.{ℕ, zero, suc, ◌+◌, ◌*◌, ◌%◌, ◌^◌, ◌≤◌, ◌<◌, ◌≡◌, ◌≢◌, refl, arith, ap, ◌∙◌}
use pzos.Base.{
  Option, none, some, false, not, Bool-cases, inl, inr, if◌then◌else◌, ◌==◌, ◌&&◌, ltb, leb,
  bit_and, bit_or,
}
use pzos.Vmem.{Vma, Vmas, end_of}
use pzos.Paging.{
  Tables, Result, ok, panic, M, ◌>>=◌, ◌>>◌, when, take_page, zero_page, map_page, page_of,
  page_present, page_rw, page_nx, pml4_index, pdpt_index, pd_index, pt_index, entry_addr,
}
use pzos.Paging.Early.{early_map, size_4k}
use pzos.Mman.{alloc_page}
use pzos.Mman
use pzos.Paging.Walk.{walk, same_indices}
use pzos.Paging.Address.{page_of-page}
use pzos.Paging.Unmap.{pml4e, pdpte, pde, pte}
use pzos.Paging.Entry.{IsFrame}
use pzos.Paging.Map.{HasTables, Maps, map_page-Maps, map_page-page_of, walk-address, walk-entry}

abbrev pub pf_user : ℕ
pf_user = 0x4

abbrev pub vma_zero : ℕ
vma_zero = 0x8

abbrev pub pageinfo_base : ℕ
pageinfo_base = 0xfffff00000000000

-- `while (vma)`: the first area that covers `addr`, 0 if there is none; `none` is the end of the fuel.
unfoldable pub find_area : ℕ → ℕ → ℕ → Vmas → Option ℕ
find_area zero addr vma s = none
find_area (suc f) addr vma s =
    let v = s.node vma in
    let rest = find_area f addr v.next s in
    if vma == 0 then some 0 else if leb v.base addr && ltb addr (end_of v) then some vma else rest

abbrev pub zero_at : ℕ → Option ℕ → M (Unit {0})
zero_at virt none t = panic
zero_at virt (some phys) t = zero_page phys t

-- `memset(page_base, 0, PAGE_SIZE)` at a linear address.
unfoldable pub zero_virtual : ℕ → M (Unit {0})
unfolding walk
zero_virtual virt t = zero_at virt (walk t virt) t

abbrev pub demand_flags : ℕ
demand_flags = bit_or (bit_or page_present page_rw) page_nx

unfoldable pub demand_page : Vma → ℕ → M (Unit {0})
unfolding map_page early_map zero_virtual
demand_page v addr = do
  phys ← take_page
  if v.base == pageinfo_base
      then early_map none addr phys size_4k demand_flags
      else map_page addr phys demand_flags
  when (not (bit_and v.flags vma_zero == 0)) (zero_virtual (page_of addr))

unfoldable pub page_fault_handler : ℕ → ℕ → ℕ → Vmas → Tables → Option (Result (Unit {0}))
unfolding find_area demand_page
page_fault_handler f error addr s t =
    if not (bit_and error pf_user == 0) then some panic else elim (find_area f addr s.vma_list s) [
      | none ↦ none
      | some vma ↦ some (if vma == 0 then panic else demand_page (s.node vma) addr t)
    ]

-- The words of the tables for a page are outside the frame at `phys`.
pub record Outside (phys virt : ℕ) (t : Tables) : Type 0 where
  pub out4 : (leb phys (pml4e virt t) && ltb (pml4e virt t) (phys + 0x1000)) ≡ false
  pub out3 : (leb phys (pdpte virt t) && ltb (pdpte virt t) (phys + 0x1000)) ≡ false
  pub out2 : (leb phys (pde virt t) && ltb (pde virt t) (phys + 0x1000)) ≡ false
  pub out1 : (leb phys (pte virt t) && ltb (pte virt t) (phys + 0x1000)) ≡ false

-- The entries stay where they are when the page is mapped.
Maps-places :
    (virt phys : ℕ) (t u : Tables)
    → HasTables virt t
    → Maps virt phys t u
    → (pml4e virt u ≡ pml4e virt t)
      × (pdpte virt u ≡ pdpte virt t)
      × (pde virt u ≡ pde virt t)
      × (pte virt u ≡ pte virt t)
Maps-places virt phys t u h m =
    let e4 : pml4e virt u ≡ pml4e virt t = ap (λ c. c + 8 * pml4_index virt) m.root in
    let e3 : pdpte virt u ≡ pdpte virt t =
      ap (λ w. entry_addr w + 8 * pdpt_index virt)
        (ap u.words e4 ∙ m.kept (pml4e virt t) h.apart4) in
    let e2 : pde virt u ≡ pde virt t =
      ap (λ w. entry_addr w + 8 * pd_index virt) (ap u.words e3 ∙ m.kept (pdpte virt t) h.apart3) in
    let e1 : pte virt u ≡ pte virt t =
      ap (λ w. entry_addr w + 8 * pt_index virt) (ap u.words e2 ∙ m.kept (pde virt t) h.apart2) in
    (e4, e3, e2, e1)

abbrev zeroed : ℕ → Tables → Tables
zeroed phys u = record u {
  words = λ j. if leb phys j && ltb j (phys + 0x1000) then 0 else u.words j;
}

Outside-Maps :
    (virt phys : ℕ) (t u : Tables)
    → HasTables virt t
    → Maps virt phys t u
    → Outside phys virt t
    → Outside phys virt u
Outside-Maps virt phys t u h m o =
    let (e4, e3, e2, e1) = Maps-places virt phys t u h m in
    record { out4 = rw e4 o.out4; out3 = rw e3 o.out3; out2 = rw e2 o.out2; out1 = rw e1 o.out1 }

-- Clearing the frame does not change the walk.
walk-zeroed :
    (addr phys : ℕ) (u : Tables)
    → addr < 2 ^ 64
    → Outside phys (page_of addr) u
    → walk (zeroed phys u) addr ≡ walk u addr
unfolding walk
walk-zeroed addr phys u lt o =
    let (i4, i3, i2, i1) = same_indices addr lt in
    ground (arith, i4, i3, i2, i1, o.out4, o.out3, o.out2, o.out1)

module _ (addr phys : ℕ) (t : Tables) (p : Mman.Pages) (lt : addr < 2 ^ 64) (high : 0x1000 ≤ addr)
    (h : HasTables (page_of addr) t) (f : IsFrame phys)
    (given : alloc_page t.pages ≡ Mman.ok phys p) where
  abbrev taken : Tables
  taken = record t { pages = p }

  taken_tables : HasTables (page_of addr) taken
  taken_tables = record {
    page = h.page;
    present4 = h.present4;
    present3 = h.present3;
    small3 = h.small3;
    present2 = h.present2;
    small2 = h.small2;
    apart4 = h.apart4;
    apart3 = h.apart3;
    apart2 = h.apart2;
  }

  mapped :
      (u : Tables) × (map_page addr phys demand_flags taken ≡ ok tt u)
      × Maps (page_of addr) phys taken u
  mapped =
      let whole = page_of-page addr lt in
      let (u, done, m) =
        map_page-Maps (page_of addr) phys demand_flags taken (ground (arith, whole)) f refl
          taken_tables in
      (u, map_page-page_of addr phys demand_flags taken lt high ∙ done, m)

  -- A new frame is mapped at the address, and clears it if the area asks for that.
  pub demand_page-mapped :
      (v : Vma)
      → v.base ≢ pageinfo_base
      → Outside phys (page_of addr) t
      → (u : Tables) × (demand_page v addr t ≡ ok tt u)
        × (walk u addr ≡ some (phys + addr % 2 ^ 12))
        × (bit_and v.flags vma_zero ≢ 0 → (j : ℕ) → phys ≤ j → j < phys + 0x1000 → u.words j ≡ 0)
  unfolding demand_page zero_virtual
  demand_page-mapped v other o =
      let (u, done, m) = mapped in
      let whole = page_of-page addr lt in
      let found : walk u addr ≡ some (phys + addr % 2 ^ 12) =
        walk-address addr phys taken u lt taken_tables m.root m.kept m.present m.names in
      let base : walk u (page_of addr) ≡ some phys =
        walk-entry (page_of addr) phys taken u (omega (arith, whole)) taken_tables m.root m.kept
          m.present m.names in
      let outside =
        Outside-Maps (page_of addr) phys taken u taken_tables m
          (record { out4 = o.out4; out3 = o.out3; out2 = o.out2; out1 = o.out1 }) in
      let general : (v.base == pageinfo_base) ≡ false = ground arith in
      elim (Bool-cases (bit_and v.flags vma_zero == 0)) [
        | inl plain ↦
            (u, ground (arith, given, general, done), found, λ zero. absurd (zero (ground arith)))
        | inr clear ↦ (
          zeroed phys u,
          ground (arith, given, general, done, base),
          walk-zeroed addr phys u lt outside ∙ found,
          λ zero j lo hi. ground arith,
        )
      ]
