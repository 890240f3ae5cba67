-- ===== src/Paging/Address.antt =====
-- kernel/arch/x86_64/paging.h: linear addresses, built from the indices of the four tables and taken
-- apart again, and what the masks of paging.c leave of a word.
use pzos.Base.{ℕ, zero, suc, ◌+◌, ◌-◌, ◌*◌, ◌/◌, ◌%◌, ◌^◌, ◌<◌, ◌≡◌, arith, ap, ◌∙◌}
use pzos.Base.{bit_and, bit_or, min, leb, if◌then◌else◌}
use pzos.Base.Bits.{bit_and-low, bit_or-add, bit_and-half, pow_step}
use native.Mathlib.Nat.{pow-suc}
use pzos.Paging.{pml4_index, pdpt_index, pd_index, pt_index, entry_addr, page_of}

-- `(int64_t)pml4 << (39 + 16) >> 16`: the top bit of the index fills the word.
abbrev pub top_part : ℕ → ℕ
top_part pml4 =
    let x = pml4 * 2 ^ 55 % 2 ^ 64 in
    if leb (2 ^ 63) x then x / 2 ^ 16 + (2 ^ 64 - 2 ^ 48) else x / 2 ^ 16

unfoldable pub build_linaddr : ℕ → ℕ → ℕ → ℕ → ℕ → ℕ
build_linaddr pml4 pdpt pd pt offset =
    bit_or (bit_or (bit_or (bit_or (top_part pml4) (pdpt * 2 ^ 30)) (pd * 2 ^ 21)) (pt * 2 ^ 12))
      offset

-- LINADDR_PML4E_PTR and the three behind it: the address of an entry in the recursive mapping.
unfoldable pub pml4e_ptr : ℕ → ℕ
unfolding build_linaddr
pml4e_ptr addr = build_linaddr 0x1fe 0x1fe 0x1fe 0x1fe (bit_and (addr / 2 ^ 36) 0xff8)

abbrev pub high_bits : ℕ → ℕ
high_bits pml4 = if leb 256 pml4 then pml4 + (2 ^ 25 - 2 ^ 9) else pml4

build_linaddr-sum :
    (pml4 pdpt pd pt offset : ℕ)
    → pml4 < 2 ^ 9
    → pdpt < 2 ^ 9
    → pd < 2 ^ 9
    → pt < 2 ^ 9
    → offset < 2 ^ 12
    → build_linaddr pml4 pdpt pd pt offset
      ≡ high_bits pml4 * 2 ^ 39 + pdpt * 2 ^ 30 + pd * 2 ^ 21 + pt * 2 ^ 12 + offset
unfolding build_linaddr
build_linaddr-sum pml4 pdpt pd pt offset h4 h3 h2 h1 h0 =
    let a = high_bits pml4 in
    let top : top_part pml4 ≡ a * 2 ^ 39 = ground arith in
    let s3 : bit_or (a * 2 ^ 39) (pdpt * 2 ^ 30) ≡ (a * 2 ^ 9 + pdpt) * 2 ^ 30 =
      bit_or-add 39 a (pdpt * 2 ^ 30) (omega arith) ∙ omega arith in
    let b = a * 2 ^ 9 + pdpt in
    let s2 : bit_or (b * 2 ^ 30) (pd * 2 ^ 21) ≡ (b * 2 ^ 9 + pd) * 2 ^ 21 =
      bit_or-add 30 b (pd * 2 ^ 21) (omega arith) ∙ omega arith in
    let c = b * 2 ^ 9 + pd in
    let s1 : bit_or (c * 2 ^ 21) (pt * 2 ^ 12) ≡ (c * 2 ^ 9 + pt) * 2 ^ 12 =
      bit_or-add 21 c (pt * 2 ^ 12) (omega arith) ∙ omega arith in
    let s0 = bit_or-add 12 (c * 2 ^ 9 + pt) offset h0 in rw (top, s3, s2, s1, s0) (omega arith)

pub low_index : (w : ℕ) → bit_and w 0x1ff ≡ w % 2 ^ 9
low_index w =
    let split : w ≡ w / 2 ^ 9 * 2 ^ 9 + w % 2 ^ 9 = omega arith in
    ap (λ v. bit_and v 0x1ff) split ∙ bit_and-low 9 (w / 2 ^ 9) (w % 2 ^ 9) (omega arith)

-- Taking an address apart gives back what it was built from.
pub build_linaddr-indices :
    (pml4 pdpt pd pt offset : ℕ)
    → pml4 < 2 ^ 9
    → pdpt < 2 ^ 9
    → pd < 2 ^ 9
    → pt < 2 ^ 9
    → offset < 2 ^ 12
    → let a = build_linaddr pml4 pdpt pd pt offset in
      (pml4_index a ≡ pml4)
      × (pdpt_index a ≡ pdpt)
      × (pd_index a ≡ pd)
      × (pt_index a ≡ pt)
      × (a % 2 ^ 12 ≡ offset)
      × (a < 2 ^ 64)
build_linaddr-indices pml4 pdpt pd pt offset h4 h3 h2 h1 h0 =
    let a = build_linaddr pml4 pdpt pd pt offset in
    let sum = build_linaddr-sum pml4 pdpt pd pt offset h4 h3 h2 h1 h0 in
    (
      low_index (a / 2 ^ 39) ∙ ground (arith, sum),
      low_index (a / 2 ^ 30) ∙ ground (arith, sum),
      low_index (a / 2 ^ 21) ∙ ground (arith, sum),
      low_index (a / 2 ^ 12) ∙ ground (arith, sum),
      ground (arith, sum),
      ground (arith, sum),
    )

pub masked_above :
    (k b a m : ℕ) → a < 2 ^ k → bit_and (b * 2 ^ k + a) (m * 2 ^ k) ≡ bit_and b m * 2 ^ k
masked_above zero b a m lt =
    let none_left : a ≡ 0 = omega arith in
    let one : b * 2 ^ 0 + 0 ≡ b = omega arith in
    let same : m * 2 ^ 0 ≡ m = omega arith in rw (none_left, one, same) (omega arith)
masked_above (suc k) b a m lt =
    let w = b * 2 ^ suc k + a in
    let down : w / 2 ≡ b * 2 ^ k + a / 2 = omega (arith, pow_step k b) in
    let half : m * 2 ^ suc k / 2 ≡ m * 2 ^ k = omega (arith, pow_step k m) in
    let even : m * 2 ^ suc k % 2 ≡ 0 = omega (arith, pow_step k m) in
    let step : bit_and w (m * 2 ^ suc k)
        ≡ min (w % 2) (m * 2 ^ suc k % 2) + 2 * bit_and (w / 2) (m * 2 ^ suc k / 2) =
      bit_and-half w (m * 2 ^ suc k) in
    let rest : bit_and (b * 2 ^ k + a / 2) (m * 2 ^ k) ≡ bit_and b m * 2 ^ k =
      masked_above k b (a / 2) m (omega (arith, pow-suc 2 k)) in
    rw (step, half, even, down, rest) (omega (arith, pow_step k (bit_and b m)))

mask_40 : (b : ℕ) → bit_and b (2 ^ 40 - 1) ≡ b % 2 ^ 40
mask_40 b =
    let split : b ≡ b / 2 ^ 40 * 2 ^ 40 + b % 2 ^ 40 = omega arith in
    ap (λ v. bit_and v (2 ^ 40 - 1)) split ∙ bit_and-low 40 (b / 2 ^ 40) (b % 2 ^ 40) (omega arith)

-- An entry's address is bits 12 to 51 of it.
pub entry_addr-bits : (e : ℕ) → entry_addr e ≡ e / 2 ^ 12 % 2 ^ 40 * 2 ^ 12
entry_addr-bits e =
    let split : e ≡ e / 2 ^ 12 * 2 ^ 12 + e % 2 ^ 12 = omega arith in
    ap entry_addr split
    ∙ (masked_above 12 (e / 2 ^ 12) (e % 2 ^ 12) (2 ^ 40 - 1) (omega arith)
        ∙ ap (λ v. v * 2 ^ 12) (mask_40 (e / 2 ^ 12)))

mask_52 : (b : ℕ) → b < 2 ^ 52 → bit_and b (2 ^ 52 - 1) ≡ b
mask_52 b lt =
    let split : b ≡ 0 * 2 ^ 52 + b = omega arith in
    ap (λ v. bit_and v (2 ^ 52 - 1)) split ∙ bit_and-low 52 0 b lt

-- The page of an address.
pub page_of-page : (a : ℕ) → a < 2 ^ 64 → page_of a ≡ a / 2 ^ 12 * 2 ^ 12
page_of-page a lt =
    let split : a ≡ a / 2 ^ 12 * 2 ^ 12 + a % 2 ^ 12 = omega arith in
    ap page_of split
    ∙ (masked_above 12 (a / 2 ^ 12) (a % 2 ^ 12) (2 ^ 52 - 1) (omega arith)
        ∙ ap (λ v. v * 2 ^ 12) (mask_52 (a / 2 ^ 12) (omega arith)))
