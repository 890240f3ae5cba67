-- ===== src/Acpi.antt =====
-- kernel/arch/x86_64/acpi.c: the search for the root tables, and acpi_get_table. Memory is bytes at
-- virtual addresses, with physical memory at `hhdm_off`. The mappings and the log are left out.
pub mod First
pub mod Root
mod Tests
use pzos.Base.{ℕ, zero, suc, ◌+◌, ◌-◌, ◌*◌, ◌/◌, ◌%◌, ◌^◌, Bool, true, false, ◌&&◌, ◌||◌, not}
use pzos.Base.{ltb, leb, ◌==◌, if◌then◌else◌}
use pzos.Memory.{Bytes}

-- A number of `n` bytes at `p`, the lowest first.
unfoldable pub load : ℕ → ℕ → Bytes → ℕ
load zero p m = 0
load (suc n) p m = m p % 256 + 256 * load n (p + 1) m

unfoldable pub sum_from : ℕ → ℕ → ℕ → Bytes → ℕ
sum_from zero p sum m = sum
sum_from (suc n) p sum m = sum_from n (p + 1) ((sum + m p) % 2 ^ 8) m

abbrev pub calculate_checksum : ℕ → ℕ → Bytes → ℕ
calculate_checksum ptr size m = sum_from size ptr 0 m

-- "RSD PTR "
abbrev pub search_string : ℕ
search_string = 0x2052545020445352

-- sizeof(ACPI_RSDP)
abbrev pub rsdp_size : ℕ
rsdp_size = 20

-- sizeof(ACPI_XSDP)
abbrev pub xsdp_size : ℕ
xsdp_size = 36

abbrev pub revision : ℕ → Bytes → ℕ
revision rsdp m = m (rsdp + 15)

abbrev pub xsdt_address : ℕ → Bytes → ℕ
xsdt_address rsdp m = load 8 (rsdp + 24) m

-- sizeof(ACPI_TABLE_HEADER)
abbrev pub header_size : ℕ
header_size = 36

-- The loop takes the pointer at `p` for the one of the RSDP.
abbrev pub is_rsdp : Bytes → ℕ → Bool
is_rsdp m p =
    load 8 p m == search_string
    && (calculate_checksum p rsdp_size m == 0
        && not (leb 2 (revision p m) && not (calculate_checksum p xsdp_size m == 0)))

-- The loop over the words from `ptr`, with `n` of them left. 0 is NULL.
unfoldable pub find_rsdp : ℕ → ℕ → Bytes → ℕ
find_rsdp zero ptr m = 0
find_rsdp (suc n) ptr m = let rest = find_rsdp n (ptr + 8) m in if is_rsdp m ptr then ptr else rest

abbrev pub low_guid : ℕ
low_guid = 0x11d3e4f18868e871

abbrev pub high_guid : ℕ
high_guid = 0x81883cc7800022bc

abbrev pub num_entries : ℕ → Bytes → ℕ
num_entries rsdt m = (load 4 (rsdt + 4) m + 2 ^ 64 - header_size) % 2 ^ 64 / 8 % 2 ^ 32

abbrev pub is_wanted : ℕ → Bytes → ℕ → Bool
is_wanted signature m table =
    load 4 table m == signature && calculate_checksum table (load 4 (table + 4) m) m == 0

module _ (hhdm_off : ℕ) where
  abbrev pub va : ℕ → ℕ
  va phys = (phys + hhdm_off) % 2 ^ 64

  -- Without a system table: the first KiB of the EBDA, and the BIOS.
  unfoldable pub probe_memory : Bytes → ℕ
  unfolding load find_rsdp
  probe_memory m =
      let low = find_rsdp (0x400 / 16) (va (load 2 (va 0x040e) m * 16)) m in
      let high = find_rsdp (0x10000 / 16) (va 0xe0000) m in if low == 0 then high else low

  -- An entry of the configuration tables at `p`, of 24 bytes.
  abbrev pub vendor_table : ℕ → Bytes → ℕ
  vendor_table p m = va (load 8 (p + 16) m)

  abbrev pub is_acpi_entry : Bytes → ℕ → Bool
  is_acpi_entry m p =
      load 8 p m == low_guid
      && (load 8 (p + 8) m == high_guid
          && (calculate_checksum (vendor_table p m) rsdp_size m == 0
              && calculate_checksum (vendor_table p m) xsdp_size m == 0))

  unfoldable pub find_entry : ℕ → ℕ → Bytes → ℕ
  unfolding load
  find_entry zero p m = 0
  find_entry (suc n) p m =
      let rest = find_entry n (p + 24) m in if is_acpi_entry m p then vendor_table p m else rest

  -- rsdt, for a system table at the physical address `system_table`.
  unfoldable pub acpi_init : ℕ → Bytes → ℕ
  unfolding load find_entry probe_memory
  acpi_init system_table m =
      let table = va system_table in
      let found = find_entry (load 8 (table + 104) m) (va (load 8 (table + 112) m)) m in
      let rsdp = if system_table == 0 then probe_memory m else found in
      if rsdp == 0 then 0 else if leb 2 (revision rsdp m) then va (xsdt_address rsdp m) else 0

  -- The table of entry `i`.
  abbrev pub table_at : ℕ → ℕ → Bytes → ℕ
  table_at rsdt i m = va (load 8 (rsdt + header_size + 8 * i) m)

  -- The loop from entry `i`, with `n` of them left.
  unfoldable pub find_table : ℕ → ℕ → ℕ → ℕ → Bytes → ℕ
  unfolding load
  find_table signature rsdt zero i m = 0
  find_table signature rsdt (suc n) i m =
      let rest = find_table signature rsdt n (i + 1) m in
      if is_wanted signature m (table_at rsdt i m) then table_at rsdt i m else rest

  unfoldable pub acpi_get_table : ℕ → ℕ → Bytes → ℕ
  unfolding find_table
  acpi_get_table signature rsdt m =
      let found = find_table signature rsdt (num_entries rsdt m) 0 m in
      if rsdt == 0 then 0 else found
