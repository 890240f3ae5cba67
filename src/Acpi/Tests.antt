-- ===== src/Acpi/Tests.antt =====
-- A root pointer at 0xe0000 that names a root table at 0x200000, with one table at 0x300000.
use pzos.Base.{ℕ, ◌+◌, ◌/◌, ◌<◌, ◌≤◌, ◌≡◌, refl, arith, List, [], ◌∷◌, ◌==◌}
use pzos.Base.{if◌then◌else◌}
use pzos.Memory.{Bytes}
use pzos.Acpi.{
  load, sum_from, calculate_checksum, rsdp_size, xsdp_size, revision, xsdt_address, find_rsdp,
  probe_memory, va, acpi_init, num_entries, find_table, acpi_get_table,
}
use pzos.Acpi.First.{Found, acpi_get_table-Found}
use pzos.Acpi.Root.{acpi_init-IsChecked, find_rsdp-half}

abbrev bytes_at : ℕ → List ℕ → Bytes → Bytes
bytes_at p [] m = m
bytes_at p (b ∷ bs) m = λ j. if j == p then b else bytes_at (p + 1) bs m j

abbrev firmware : Bytes
firmware = bytes_at 0xe0000 (b'R' ∷ b'S' ∷ b'D' ∷ b' ' ∷ b'P' ∷ b'T' ∷ b'R' ∷ b' ' ∷ 223 ∷ []) (
    bytes_at 0xe000f (2 ∷ []) (
      bytes_at 0xe001a (0x20 ∷ []) (
        bytes_at 0xe0020 (224 ∷ []) (
          bytes_at 0x200004 (44 ∷ []) (
            bytes_at 0x200026 (0x30 ∷ []) (
              bytes_at 0x300000 (b'M' ∷ b'C' ∷ b'F' ∷ b'G' ∷ 36 ∷ [])
                (bytes_at 0x300009 (191 ∷ []) (λ j. 0))))))))

abbrev mcfg : ℕ
mcfg = 0x4746434d

acpi_run :
    (acpi_init 0 0 firmware ≡ 0x200000) × (acpi_get_table 0 mcfg 0x200000 firmware ≡ 0x300000)
unfolding acpi_init probe_memory find_rsdp acpi_get_table find_table load sum_from
acpi_run = (refl, refl)

acpi_get_table-Found_example :
    Found 0 mcfg 0x200000
      (num_entries 0x200000 firmware)
      0
      firmware
      (acpi_get_table 0 mcfg 0x200000 firmware)
acpi_get_table-Found_example = acpi_get_table-Found 0 mcfg 0x200000 firmware (omega arith)

acpi_init-IsChecked_example :
    (p : ℕ) × (calculate_checksum p rsdp_size firmware ≡ 0)
    × (calculate_checksum p xsdp_size firmware ≡ 0)
    × (2 ≤ revision p firmware)
    × (acpi_init 0 0 firmware ≡ va 0 (xsdt_address p firmware))
acpi_init-IsChecked_example =
    acpi_init-IsChecked 0 0 firmware (λ e. absurd (omega (arith, e, acpi_run.0)))

bios_run : find_rsdp (0x10000 / 16) 0xe0000 firmware ≡ 0xe0000
unfolding find_rsdp load sum_from
bios_run = refl

find_rsdp-half_example :
    (0xe0000 ≤ find_rsdp (0x10000 / 16) 0xe0000 firmware)
    × (find_rsdp (0x10000 / 16) 0xe0000 firmware < 0xe8000)
find_rsdp-half_example =
    find_rsdp-half 0x10000 0xe0000 firmware (λ e. absurd (omega (arith, e, bios_run)))
