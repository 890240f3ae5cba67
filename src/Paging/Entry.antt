-- ===== src/Paging/Entry.antt =====
-- What the entry of a page says of its frame.
use pzos.Base.{ℕ, ◌+◌, ◌*◌, ◌/◌, ◌%◌, ◌^◌, ◌<◌, ◌≡◌, refl, arith, ap, ◌∙◌}
use pzos.Base.{true, bit_and, bit_or}
use pzos.Base.Bits.{bit_or-add, bit_or-parts, bit_or-zero, bit_or-half, bit_and-low}
use pzos.Paging.{page_present, entry_addr, is_present}
use pzos.Paging.Address.{entry_addr-bits}

-- The address of a page frame, and flags that leave the bits of the address alone.
abbrev pub IsFrame : ℕ → Type 0
IsFrame phys = (phys % 2 ^ 12 ≡ 0) × (phys < 2 ^ 52)

abbrev pub IsFlags : ℕ → Type 0
IsFlags flags = flags / 2 ^ 12 % 2 ^ 40 ≡ 0

abbrev pub page_entry : ℕ → ℕ → ℕ
page_entry phys flags = bit_or (bit_or phys page_present) flags

or_apart : (a b : ℕ) → a < 2 ^ 40 → bit_or a (b * 2 ^ 40) % 2 ^ 40 ≡ a
or_apart a b lt =
    let l : a ≡ 0 * 2 ^ 40 + a = omega arith in
    let r : b * 2 ^ 40 ≡ b * 2 ^ 40 + 0 = omega arith in
    let (parts, _) = bit_or-parts 40 0 a b 0 lt (omega arith) in
    let whole : bit_or a (b * 2 ^ 40) ≡ bit_or (0 * 2 ^ 40 + a) (b * 2 ^ 40 + 0) =
      ap (λ v. bit_or v (b * 2 ^ 40)) l ∙ ap (λ v. bit_or (0 * 2 ^ 40 + a) v) r in
    omega (arith, whole, parts, bit_or-zero a)

pub page_entry-parts :
    (phys flags : ℕ)
    → IsFrame phys
    → IsFlags flags
    → (entry_addr (page_entry phys flags) ≡ phys) × (is_present (page_entry phys flags) ≡ true)
page_entry-parts phys flags f g =
    let a = phys / 2 ^ 12 in
    let h = flags / 2 ^ 52 in
    let first : bit_or phys page_present ≡ a * 2 ^ 12 + 1 =
      ap (λ v. bit_or v 1) (omega arith) ∙ bit_or-add 12 a 1 (omega arith) in
    let split : flags ≡ h * 2 ^ 40 * 2 ^ 12 + flags % 2 ^ 12 = omega arith in
    let (parts, small) =
      bit_or-parts 12 a 1 (h * 2 ^ 40) (flags % 2 ^ 12) (omega arith) (omega arith) in
    let whole : page_entry phys flags ≡ bit_or a (h * 2 ^ 40) * 2 ^ 12 + bit_or 1 (flags % 2 ^ 12) =
      ap (λ v. bit_or v flags) first ∙ (ap (λ v. bit_or (a * 2 ^ 12 + 1) v) split ∙ parts) in
    let e = page_entry phys flags in
    let high = or_apart a h (omega arith) in
    let odd : e % 2 ≡ 1 = omega (arith, whole, bit_or-half 1 (flags % 2 ^ 12)) in
    let bits : e ≡ e / 2 * 2 ^ 1 + 1 = omega (arith, odd) in
    let low : bit_and e 1 ≡ 1 =
      ap (λ v. bit_and v 1) bits ∙ bit_and-low 1 (e / 2) 1 (omega arith) in
    (entry_addr-bits e ∙ omega (arith, whole, high, small), rw low refl)
