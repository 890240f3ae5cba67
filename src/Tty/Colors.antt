-- ===== src/Tty/Colors.antt =====
-- kernel/include/kernel/ansi.h, and what kernel/src/tty.c does with colours: the palettes, the pair of
-- colours in one word, blending, and the arguments of a graphic rendition. An int is its pattern of 32
-- bits; an array is a function from indices.
use pzos.Base.{ℕ, zero, suc, ◌+◌, ◌-◌, ◌*◌, ◌/◌, ◌%◌, ◌^◌, bit_and, bit_or, ◌&&◌, ◌||◌, not, Bool}
use pzos.Base.{List, [], ◌∷◌, ltb, leb, ◌==◌, if◌then◌else◌, get_or}
use pzos.Base.Int.{signed, to_size}

-- An int as a size_t, and the order of ints.
abbrev pub extend : ℕ → ℕ
extend n = to_size (signed 32 n)

abbrev pub int_lt : ℕ → ℕ → Bool
int_lt a b = ltb ((a + 2 ^ 31) % 2 ^ 32) ((b + 2 ^ 31) % 2 ^ 32)

abbrev pub ansi_3bit_colors : List ℕ
ansi_3bit_colors =
    0x000000 ∷ 0xaa0000 ∷ 0x00aa00 ∷ 0xaa5500 ∷ 0x0000aa ∷ 0xaa00aa ∷ 0x00aaaa ∷ 0xaaaaaa ∷ []

abbrev pub ansi_4bit_colors : List ℕ
ansi_4bit_colors =
    0x000000 ∷ 0xaa0000 ∷ 0x00aa00 ∷ 0xaa5500 ∷ 0x0000aa ∷ 0xaa00aa ∷ 0x00aaaa ∷ 0xaaaaaa ∷ 0x555555
    ∷ 0xff5555 ∷ 0x55ff55 ∷ 0xffff55 ∷ 0x5555ff ∷ 0xff55ff ∷ 0x55ffff ∷ 0xffffff ∷ []

abbrev pub black : ℕ
black = get_or ansi_3bit_colors 0 0

abbrev pub white : ℕ
white = get_or ansi_3bit_colors 7 0

-- The foreground is in the low half.
unfoldable pub color_pair : ℕ → ℕ → ℕ
color_pair fg bg = bit_or (bg * 2 ^ 32 % 2 ^ 64) fg

abbrev set_word : ℕ → ℕ → (ℕ → ℕ) → ℕ → ℕ
set_word i v a j = if j == i then v else a j

abbrev pub rgb : ℕ → ℕ → ℕ → ℕ
rgb r g b = bit_or (bit_or (r * 2 ^ 16 % 2 ^ 32) (g * 2 ^ 8)) b

-- The loops of init_ansicolors, from round `i` on.
unfoldable pub color_cube : ℕ → ℕ → (ℕ → ℕ) → ℕ → ℕ
color_cube zero i a = a
color_cube (suc n) i a =
    let r = i / 36 in
    let g = i / 6 % 6 in
    let b = i % 6 in
    color_cube n (i + 1) (set_word (i + 16) (rgb (r * 255 / 5) (g * 255 / 5) (b * 255 / 5)) a)

unfoldable pub gray_ramp : ℕ → ℕ → (ℕ → ℕ) → ℕ → ℕ
gray_ramp zero i a = a
gray_ramp (suc n) i a = gray_ramp n (i + 1) (set_word (i + 232) ((i + 1) * 255 / 25 * 0x010101) a)

-- ANSI_8BIT_COLORS, which was `a` before.
unfoldable pub init_ansicolors : (ℕ → ℕ) → ℕ → ℕ
unfolding gray_ramp color_cube
init_ansicolors a =
    gray_ramp 24 0 (color_cube 216 0 (λ i. if ltb i 16 then get_or ansi_4bit_colors i 0 else a i))

-- One component of a blended colour.
unfoldable pub blend : ℕ → ℕ → ℕ → ℕ
blend fg bg alpha = (fg * alpha + bg * (255 - alpha)) / 255 % 2 ^ 8

unfoldable pub mix : ℕ → ℕ → ℕ
mix color alpha =
    let fg_r = bit_and (color / 2 ^ 16) 0xff in
    let fg_g = bit_and (color / 2 ^ 8) 0xff in
    let fg_b = bit_and (color / 2 ^ 0) 0xff in
    let bg_r = bit_and (color / 2 ^ 48) 0xff in
    let bg_g = bit_and (color / 2 ^ 40) 0xff in
    let bg_b = bit_and (color / 2 ^ 32) 0xff in
    rgb (blend fg_r bg_r alpha) (blend fg_g bg_g alpha) (blend fg_b bg_b alpha)

abbrev pub foreground : ℕ → ℕ
foreground color = bit_and color 0xffffffff

abbrev pub background : ℕ → ℕ
background color = color / 2 ^ 32

-- `case lo ... hi`; the pattern of a negative int is above both.
abbrev pub from_to : ℕ → ℕ → ℕ → Bool
from_to lo hi x = leb lo x && leb x hi

-- The colour that a rendition leaves, and the index of the last argument that it read.
pub record Rendered : Type 0 where
  pub color : ℕ
  pub at : ℕ

abbrev painted : ℕ → ℕ → Rendered
painted j c = record { color = c; at = j }

-- `(args[j + 1] << 16) | (args[j + 2] << 8) | args[j + 3]`
abbrev pub true_color : (ℕ → ℕ) → ℕ → ℕ
true_color args j =
    bit_or (bit_or (args (j + 1) * 2 ^ 16 % 2 ^ 32) (args (j + 2) * 2 ^ 8 % 2 ^ 32)) (args (j + 3))

module _ (palette : ℕ → ℕ) where
  -- The arguments behind 38 or 48, the first of them at `j`. `use` is what sets the colour.
  unfoldable pub special : (ℕ → ℕ) → (ℕ → ℕ) → ℕ → ℕ → Rendered
  special paint args j color =
      if args j == 5
      then (if int_lt (args (j + 1)) 0 || not (int_lt (args (j + 1)) 256)
          then record { color = color; at = j }
          else record { color = paint (palette (args (j + 1))); at = j + 1 })
      else if args j == 2
      then record { color = paint (extend (true_color args j)); at = j + 3 }
      else record { color = color; at = j }

  -- The body of the loop over the arguments.
  unfoldable pub rendition : (ℕ → ℕ) → ℕ → ℕ → Rendered
  rendition args j color =
      let x = args j in
      let fg = λ (c : ℕ). color_pair c (background color) in
      let bg = λ (c : ℕ). color_pair (foreground color) c in
      let here = λ (c : ℕ). painted j c in
      if x == 0
      then here (color_pair white black)
      else if from_to 30 37 x
      then here (fg (get_or ansi_3bit_colors (x - 30) 0))
      else if from_to 90 97 x
      then here (fg (get_or ansi_4bit_colors (x - 90 + 8) 0))
      else if x == 38
      then special fg args (j + 1) color
      else if x == 39
      then here (fg white)
      else if from_to 40 47 x
      then here (bg (get_or ansi_3bit_colors (x - 40) 0))
      else if from_to 100 107 x
      then here (bg (get_or ansi_4bit_colors (x - 100 + 8) 0))
      else if x == 48
      then special bg args (j + 1) color
      else if x == 49
      then here (bg black)
      else here color

  -- The loop from `j` on; each round moves on, so `arg_count` rounds are enough.
  unfoldable pub renditions : ℕ → ℕ → (ℕ → ℕ) → ℕ → ℕ → ℕ
  renditions zero arg_count args j color = color
  renditions (suc n) arg_count args j color =
      let r = rendition args j color in
      let next = renditions n arg_count args (r.at + 1) r.color in
      if ltb j arg_count then next else color
