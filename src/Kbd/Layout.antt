-- ===== src/Kbd/Layout.antt =====
-- What the tables of the driver say, for every scancode and every key.
use pzos.Base.{ℕ, ◌-◌, ◌<◌, ◌≡◌, ◌≢◌, refl, arith, true, false, Bool, not, ◌&&◌, ◌||◌, ◌↔◌}
use pzos.Base.{length, get_or, ◌==◌, ltb, leb, if◌then◌else◌, all_below, all_below_sound}
use pzos.Kbd.{mapped, guarded}
use pzos.Kbd.Tables.{
  normal_map, extended_map, codepoint_map, shifted_map, key_invalid, key_num_enter, key_num_period,
}

pub normal_size : length normal_map ≡ 132
unfolding normal_map
normal_size = refl

pub extended_size : length extended_map ≡ 126
unfolding extended_map
extended_size = refl

codepoint_size : length codepoint_map ≡ 149
unfolding codepoint_map
codepoint_size = refl

shifted_size : length shifted_map ≡ 149
unfolding shifted_map
shifted_size = refl

normal_small : all_below 132 (λ c. ltb (get_or normal_map c 0) 256) ≡ true
unfolding normal_map
normal_small = refl

extended_small : all_below 126 (λ c. ltb (get_or extended_map c 0) 256) ≡ true
unfolding extended_map
extended_small = refl

pub guarded-normal-lt : (c : ℕ) → guarded normal_map c < 256
guarded-normal-lt c =
    ground (
      arith,
      normal_size,
      all_below_sound 132 (λ c. ltb (get_or normal_map c 0) 256) c normal_small,
    )

pub guarded-extended-lt : (c : ℕ) → guarded extended_map c < 256
guarded-extended-lt c = ground (
  arith,
  extended_size,
  all_below_sound 126 (λ c. ltb (get_or extended_map c 0) 256) c extended_small,
)

-- Two scancodes with one key, which is a key, are one scancode: row `a` of the check.
abbrev same_key : ℕ → ℕ → Bool
same_key a b =
    if get_or normal_map a 0 == get_or normal_map b 0
    then a == b || get_or normal_map a 0 == key_invalid
    else true

normal_table : all_below 132 (λ a. all_below 132 (λ b. same_key a b)) ≡ true
unfolding normal_map
normal_table = refl

-- Different scancodes without a prefix never give the same key, unless they give none.
pub normal_map_injective :
    (a b : ℕ)
    → guarded normal_map a ≡ guarded normal_map b
    → guarded normal_map a ≢ key_invalid
    → a ≡ b
normal_map_injective a b same key = ground (
  arith,
  normal_size,
  all_below_sound 132 (same_key a) b (
      all_below_sound 132 (λ a. all_below 132 (λ b. same_key a b)) a normal_table
        (ground (arith, normal_size))),
)

abbrev pub is_letter : ℕ → Bool
is_letter c = leb b'a' c && leb c b'z'

abbrev letter_row : ℕ → Bool
letter_row k =
    if is_letter (get_or codepoint_map k 0)
    then get_or shifted_map k 0 == get_or codepoint_map k 0 - 32
    else not (leb b'A' (get_or shifted_map k 0) && leb (get_or shifted_map k 0) b'Z')

letter_table : all_below 149 letter_row ≡ true
unfolding codepoint_map shifted_map
letter_table = refl

-- With Shift a letter key gives the capital of the letter that it gives without, and no other key
-- gives a capital letter.
pub shift_capital :
    (k : ℕ)
    → ((is_letter (mapped codepoint_map k) ≡ true)
        → mapped shifted_map k ≡ mapped codepoint_map k - 32)
      × ((is_letter (mapped codepoint_map k) ≡ false)
          → (leb b'A' (mapped shifted_map k) && leb (mapped shifted_map k) b'Z') ≡ false)
unfolding mapped
shift_capital k =
    ground (arith, codepoint_size, shifted_size, all_below_sound 149 letter_row k letter_table)

enter_normal :
    all_below 132 (λ c. if get_or normal_map c 0 == key_num_enter then c == 0x71 else true) ≡ true
unfolding normal_map
enter_normal = refl

enter_extended :
    all_below 126 (λ c.
      not (get_or extended_map c 0 == key_num_enter || get_or extended_map c 0 == key_num_period))
    ≡ true
unfolding extended_map
enter_extended = refl

period_normal : all_below 132 (λ c. not (get_or normal_map c 0 == key_num_period)) ≡ true
unfolding normal_map
period_normal = refl

enter_code : guarded normal_map 0x71 ≡ key_num_enter
unfolding normal_map
enter_code = refl

enter_char : mapped codepoint_map key_num_enter ≡ b'.'
unfolding mapped codepoint_map
enter_char = refl

-- The tables and the header disagree on the keypad: the code that the header names Key_NumEnter
-- comes from scancode 0x71 alone, the period of the keypad, and stands for the character '.'; no
-- scancode, with or without the prefix 0xe0, gives the code Key_NumPeriod.
pub num_enter_period :
    ((c : ℕ) → (guarded normal_map c ≡ key_num_enter) ↔ (c ≡ 0x71))
    × ((c : ℕ) → guarded extended_map c ≢ key_num_enter)
    × (mapped codepoint_map key_num_enter ≡ b'.')
    × ((c : ℕ) → guarded normal_map c ≢ key_num_period)
    × ((c : ℕ) → guarded extended_map c ≢ key_num_period)
num_enter_period = (
  λ c. (
    λ h. ground (
      arith,
      normal_size,
      all_below_sound 132 (λ c. if get_or normal_map c 0 == key_num_enter then c == 0x71 else true)
          c enter_normal,
    ),
    λ h. rw h enter_code,
  ),
  λ c h. ground (arith, extended_size, extended_row c),
  enter_char,
  λ c h. ground (
    arith,
    normal_size,
    all_below_sound 132 (λ c. not (get_or normal_map c 0 == key_num_period)) c period_normal,
  ),
  λ c h. ground (arith, extended_size, extended_row c),
)
  where
    extended_row :
        (c : ℕ)
        → c < 126
        → not
            (get_or extended_map c 0 == key_num_enter || get_or extended_map c 0 == key_num_period)
          ≡ true
    extended_row c =
        all_below_sound 126
          (λ c.
            not (
              get_or extended_map c 0 == key_num_enter
              || get_or extended_map c 0 == key_num_period))
          c enter_extended
