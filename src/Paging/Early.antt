-- ===== src/Paging/Early.antt =====
-- kernel/arch/x86_64/paging.c, early_map: pages of three sizes, with no counts.
use pzos.Base.{ℕ, ◌+◌, ◌*◌, bit_or, Option, none, some, ◌==◌, if◌then◌else◌}
use pzos.Paging.{
  M, ◌>>=◌, ◌>>◌, panic, unless, write, present_at, new_table, entry_below, page_present, page_rw,
  page_ps, page_of, pml4_index, pdpt_index, pd_index, pt_index,
}

pub data MapSize : Type 0 where
  size_4k : MapSize
  size_2m : MapSize
  size_1g : MapSize

abbrev pub size_flags : MapSize → ℕ → ℕ
size_flags size_4k flags = flags
size_flags size_2m flags = bit_or flags page_ps
size_flags size_1g flags = bit_or flags page_ps

unfoldable pub early_table : ℕ → M (Unit {0})
unfolding new_table
early_table e = do p ← present_at e; unless p (new_table e)

abbrev pub large_page : ℕ → ℕ → ℕ → M (Unit {0})
large_page e phys flags = write e (bit_or (bit_or (bit_or phys page_present) page_rw) flags)

-- What early_map does below the entry of its first table.
unfoldable pub early_below : MapSize → ℕ → ℕ → ℕ → ℕ → M (Unit {0})
unfolding early_table entry_below
early_below size_1g pdpte virt phys flags = large_page pdpte phys flags
early_below size_2m pdpte virt phys flags = do
  early_table pdpte
  pde ← entry_below pdpte (pd_index virt)
  large_page pde phys flags
early_below size_4k pdpte virt phys flags = do
  early_table pdpte
  pde ← entry_below pdpte (pd_index virt)
  early_table pde
  pte ← entry_below pde (pt_index virt)
  write pte (bit_or (bit_or phys page_present) flags)

-- `pml4` is the physical address of the table, none for NULL.
unfoldable pub early_map : Option ℕ → ℕ → ℕ → MapSize → ℕ → M (Unit {0})
unfolding early_table entry_below early_below
early_map pml4 virt_addr phys_addr size flags t =
    let table : ℕ = (elim pml4 [ none ↦ t.cr3 | some a ↦ a ]) in
    let virt = page_of virt_addr in
    let pml4e = table + 8 * pml4_index virt in
    let body : M (Unit {0}) = (do
      early_table pml4e
      pdpte ← entry_below pml4e (pdpt_index virt)
      early_below size pdpte virt (page_of phys_addr) (size_flags size flags)) in
    if virt_addr == 0 then panic else body t
