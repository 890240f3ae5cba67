-- ===== src/Acpi/Root.antt =====
-- kernel/arch/x86_64/acpi.c, acpi_init: the root pointer that it takes.
use pzos.Base.{ℕ, zero, suc, ◌+◌, ◌*◌, ◌/◌, ◌<◌, ◌≤◌, ◌≡◌, ◌≢◌, ◌⊎◌, inl, inr, refl}
use pzos.Base.{Bool, true, false, leb, arith, ◌==◌, if◌then◌else◌, Bool-cases}
use pzos.Memory.{Bytes}
use pzos.Acpi.{
  load, calculate_checksum, rsdp_size, xsdp_size, revision, xsdt_address, is_rsdp, find_rsdp, va,
  probe_memory, is_acpi_entry, find_entry, acpi_init,
}

-- Both checksums of the root pointer hold.
abbrev pub IsChecked : Bytes → ℕ → Type 0
IsChecked m p =
    (calculate_checksum p rsdp_size m ≡ 0)
    × (2 ≤ revision p m → calculate_checksum p xsdp_size m ≡ 0)

is_rsdp-IsChecked : (m : Bytes) (p : ℕ) → is_rsdp m p ≡ true → IsChecked m p
is_rsdp-IsChecked m p h = (ground arith, λ new. ground arith)

-- The loop gives NULL, or the place of a root pointer in the first `8 * n` bytes.
find_rsdp-bounds :
    (n ptr : ℕ) (m : Bytes)
    → (find_rsdp n ptr m ≡ 0)
      ⊎ ((find_rsdp n ptr m < ptr + 8 * n)
          × (ptr ≤ find_rsdp n ptr m)
          × (is_rsdp m (find_rsdp n ptr m) ≡ true))
unfolding find_rsdp
find_rsdp-bounds zero ptr m = inl refl
find_rsdp-bounds (suc n) ptr m = elim (Bool-cases (is_rsdp m ptr)) [
  | inl good ↦ rw (find_rsdp, good) (inr (omega arith, omega arith, good))
  | inr other ↦ elim (find_rsdp-bounds n (ptr + 8) m) [
    | inl none_there ↦ inl (rw (find_rsdp, other) none_there)
    | inr (less, more, there) ↦ rw (find_rsdp, other) (inr (omega arith, omega arith, there))
  ]
]

find_entry-IsChecked :
    (hhdm_off n p : ℕ) (m : Bytes)
    → find_entry hhdm_off n p m ≢ 0
    → IsChecked m (find_entry hhdm_off n p m)
unfolding find_entry
find_entry-IsChecked hhdm_off zero p m found = absurd (found refl)
find_entry-IsChecked hhdm_off (suc n) p m found = elim (Bool-cases (is_acpi_entry hhdm_off m p)) [
  | inl good ↦ rw (find_entry, good) (ground arith, λ newer. ground arith)
  | inr other ↦
      rw (find_entry, other)
        (find_entry-IsChecked hhdm_off n (p + 24) m (rw (find_entry, other) at found))
]

find_rsdp-IsChecked :
    (n ptr : ℕ) (m : Bytes) → find_rsdp n ptr m ≢ 0 → IsChecked m (find_rsdp n ptr m)
find_rsdp-IsChecked n ptr m found = elim (find_rsdp-bounds n ptr m) [
  | inl none_there ↦ absurd (found none_there)
  | inr (less, more, there) ↦ is_rsdp-IsChecked m (find_rsdp n ptr m) there
]

either :
    (b : Bool) (p q : ℕ) (m : Bytes)
    → (p ≢ 0 → IsChecked m p)
    → (q ≢ 0 → IsChecked m q)
    → (if b then p else q) ≢ 0
    → IsChecked m (if b then p else q)
either true p q m left right found = left found
either false p q m left right found = right found

probe_memory-IsChecked :
    (hhdm_off : ℕ) (m : Bytes) → probe_memory hhdm_off m ≢ 0 → IsChecked m (probe_memory hhdm_off m)
unfolding probe_memory
probe_memory-IsChecked hhdm_off m found =
    let low = find_rsdp (0x400 / 16) (va hhdm_off (load 2 (va hhdm_off 0x040e) m * 16)) m in
    let high = find_rsdp (0x10000 / 16) (va hhdm_off 0xe0000) m in
    either (low == 0) high low m (find_rsdp-IsChecked (0x10000 / 16) (va hhdm_off 0xe0000) m)
      (find_rsdp-IsChecked (0x400 / 16) (va hhdm_off (load 2 (va hhdm_off 0x040e) m * 16)) m) found

-- The root table of a root pointer.
abbrev root_table : ℕ → ℕ → Bytes → ℕ
root_table hhdm_off rsdp m =
    if rsdp == 0
    then 0
    else if leb 2 (revision rsdp m)
    then va hhdm_off (xsdt_address rsdp m)
    else 0

root_table-IsChecked :
    (hhdm_off rsdp : ℕ) (m : Bytes)
    → (rsdp ≢ 0 → IsChecked m rsdp)
    → root_table hhdm_off rsdp m ≢ 0
    → (p : ℕ) × (calculate_checksum p rsdp_size m ≡ 0)
      × (calculate_checksum p xsdp_size m ≡ 0)
      × (2 ≤ revision p m)
      × (root_table hhdm_off rsdp m ≡ va hhdm_off (xsdt_address p m))
root_table-IsChecked hhdm_off rsdp m checked found = elim (Bool-cases (rsdp == 0)) [
  | inl null ↦ absurd (found (rw null refl))
  | inr some_rsdp ↦ elim (Bool-cases (leb 2 (revision rsdp m))) [
    | inr older ↦ absurd (found (rw (some_rsdp, older) refl))
    | inl newer ↦
        let both = checked (ground arith) in
        let revised : 2 ≤ revision rsdp m = ground arith in
        (rsdp, both.0, both.1 revised, revised, rw (some_rsdp, newer) refl)
  ]
]

-- Where acpi_init finds a root table, there is a root pointer of revision 2 or later whose checksum of 20
-- bytes and whose checksum of 36 bytes are 0, and the table is the one that it names.
pub acpi_init-IsChecked :
    (hhdm_off system_table : ℕ) (m : Bytes)
    → acpi_init hhdm_off system_table m ≢ 0
    → (p : ℕ) × (calculate_checksum p rsdp_size m ≡ 0)
      × (calculate_checksum p xsdp_size m ≡ 0)
      × (2 ≤ revision p m)
      × (acpi_init hhdm_off system_table m ≡ va hhdm_off (xsdt_address p m))
unfolding acpi_init
acpi_init-IsChecked hhdm_off system_table m found =
    let table = va hhdm_off system_table in
    let n = load 8 (table + 104) m in
    let entries = va hhdm_off (load 8 (table + 112) m) in
    root_table-IsChecked hhdm_off
      (if system_table == 0 then probe_memory hhdm_off m else find_entry hhdm_off n entries m) m
      (either (system_table == 0) (probe_memory hhdm_off m) (find_entry hhdm_off n entries m) m
        (probe_memory-IsChecked hhdm_off m) (find_entry-IsChecked hhdm_off n entries m))
      found

-- The bound of the loop for `size` bytes counts 16 bytes for each step of 8: a root pointer that it
-- finds begins in the first half of them. The one over the 64 KiB from 0xe0000 on finds none that begins
-- at 0xe8000 or behind.
pub find_rsdp-half :
    (size ptr : ℕ) (m : Bytes)
    → find_rsdp (size / 16) ptr m ≢ 0
    → (ptr ≤ find_rsdp (size / 16) ptr m) × (find_rsdp (size / 16) ptr m < ptr + size / 2)
find_rsdp-half size ptr m found = elim (find_rsdp-bounds (size / 16) ptr m) [
  | inl none_there ↦ absurd (found none_there)
  | inr (less, more, there) ↦ (more, omega arith)
]
