-- ===== src/Paging/Walk.antt =====
-- How the processor translates an address, and what is_mapped and the recursive mapping have to do with it.
use pzos.Base.{ℕ, ◌+◌, ◌*◌, ◌/◌, ◌%◌, ◌^◌, ◌<◌, ◌≡◌, arith, ap, ◌∙◌, Option, none, some}
use pzos.Base.{bit_and, Bool, true, false, not, if◌then◌else◌}
use pzos.Paging.{
  Tables, pml4_index, pdpt_index, pd_index, pt_index, entry_addr, page_of, is_present, is_large,
  is_mapped,
}
use pzos.Paging.Address.{build_linaddr-indices, pml4e_ptr, masked_above, low_index, page_of-page}

-- The physical address that the processor finds, by its four tables: a large page ends the walk.
unfoldable pub walk : Tables → ℕ → Option ℕ
walk t virt =
    let w4 = t.words (t.cr3 + 8 * pml4_index virt) in
    let w3 = t.words (entry_addr w4 + 8 * pdpt_index virt) in
    let w2 = t.words (entry_addr w3 + 8 * pd_index virt) in
    let w1 = t.words (entry_addr w2 + 8 * pt_index virt) in
    if not (is_present w4)
    then none
    else if not (is_present w3)
    then none
    else if is_large w3
    then some (entry_addr w3 / 2 ^ 30 * 2 ^ 30 + virt % 2 ^ 30)
    else if not (is_present w2)
    then none
    else if is_large w2
    then some (entry_addr w2 / 2 ^ 21 * 2 ^ 21 + virt % 2 ^ 21)
    else if not (is_present w1)
    then none
    else some (entry_addr w1 + virt % 2 ^ 12)

abbrev pub is_some : Option ℕ → Bool
is_some none = false
is_some (some a) = true

-- The indices of an address are those of its page.
pub same_indices :
    (a : ℕ)
    → a < 2 ^ 64
    → (pml4_index (page_of a) ≡ pml4_index a)
      × (pdpt_index (page_of a) ≡ pdpt_index a)
      × (pd_index (page_of a) ≡ pd_index a)
      × (pt_index (page_of a) ≡ pt_index a)
same_indices a lt =
    let p = page_of-page a lt in
    (
      ap (λ v. bit_and v 0x1ff) (omega arith),
      ap (λ v. bit_and v 0x1ff) (omega arith),
      ap (λ v. bit_and v 0x1ff) (omega arith),
      ap (λ v. bit_and v 0x1ff) (omega arith),
    )

-- is_mapped tells whether the processor finds a page, large pages included.
pub is_mapped-walk :
    (t : Tables) (virt : ℕ) → virt < 2 ^ 64 → is_mapped virt t ≡ is_some (walk t virt)
unfolding is_mapped walk
is_mapped-walk t virt lt =
    let (i4, i3, i2, i1) = same_indices virt lt in
    rw (is_mapped, walk, i4, i3, i2, i1) (ground arith)

-- Entry 0x1fe of the table in cr3 names that table.
pub record IsRecursive (t : Tables) : Type 0 where
  pub names : entry_addr (t.words (t.cr3 + 8 * 0x1fe)) ≡ t.cr3
  pub present : is_present (t.words (t.cr3 + 8 * 0x1fe)) ≡ true
  pub small : is_large (t.words (t.cr3 + 8 * 0x1fe)) ≡ false

entry_offset : (a : ℕ) → bit_and (a / 2 ^ 36) 0xff8 ≡ 8 * pml4_index a
entry_offset a =
    let split : a / 2 ^ 36 ≡ a / 2 ^ 39 * 2 ^ 3 + a / 2 ^ 36 % 2 ^ 3 = omega arith in
    ap (λ v. bit_and v 0xff8) split
    ∙ (masked_above 3 (a / 2 ^ 39) (a / 2 ^ 36 % 2 ^ 3) 0x1ff (omega arith) ∙ omega arith)

-- The processor finds LINADDR_PML4E_PTR of an address at the address's entry in the table in cr3.
pub pml4e_ptr-walk :
    (t : Tables) (virt : ℕ)
    → IsRecursive t
    → walk t (pml4e_ptr virt) ≡ some (t.cr3 + 8 * pml4_index virt)
unfolding walk pml4e_ptr
pml4e_ptr-walk t virt r =
    let low : pml4_index virt < 2 ^ 9 = omega (arith, low_index (virt / 2 ^ 39)) in
    let offset = entry_offset virt in
    let (i4, i3, i2, i1, o, _) =
      build_linaddr-indices 0x1fe 0x1fe 0x1fe 0x1fe (bit_and (virt / 2 ^ 36) 0xff8) (omega arith)
        (omega arith) (omega arith) (omega arith) (omega arith) in
    rw (walk, pml4e_ptr, i4, i3, i2, i1, o, r.names, r.present, r.small, offset) (ground arith)
