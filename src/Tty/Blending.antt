-- ===== src/Tty/Blending.antt =====
-- What the blending of the two colours of a word, and the palette, come to.
use pzos.Base.{ℕ, ◌+◌, ◌-◌, ◌*◌, ◌/◌, ◌%◌, ◌^◌, ◌≤◌, ◌<◌, ◌≡◌, refl, min, max, arith}
use pzos.Base.{
  bit_and, bit_or, ap, ◌∙◌, subst, get_or, all_below, all_below_sound, true, ==_iff, ◌==◌,
}
use pzos.Base.Bits.{bit_and-low, bit_or-add}
use pzos.Tty.Colors.{mix, blend, rgb, init_ansicolors, ansi_4bit_colors}

pub rgb-sum :
    (r g b : ℕ) → r < 2 ^ 8 → g < 2 ^ 8 → b < 2 ^ 8 → rgb r g b ≡ r * 2 ^ 16 + g * 2 ^ 8 + b
rgb-sum r g b rs gs bs =
    let small : r * 2 ^ 16 % 2 ^ 32 ≡ r * 2 ^ 16 = omega arith in
    let top : bit_or (r * 2 ^ 16) (g * 2 ^ 8) ≡ r * 2 ^ 16 + g * 2 ^ 8 =
      bit_or-add 16 r (g * 2 ^ 8) (omega arith) in
    let apart : r * 2 ^ 16 + g * 2 ^ 8 ≡ (r * 2 ^ 8 + g) * 2 ^ 8 = omega arith in
    rw (small, top, apart) (bit_or-add 8 (r * 2 ^ 8 + g) b bs ∙ omega arith)

low_byte : (w : ℕ) → bit_and w 0xff ≡ w % 2 ^ 8
low_byte w =
    let split : w ≡ w / 2 ^ 8 * 2 ^ 8 + w % 2 ^ 8 = omega arith in
    ap (λ v. bit_and v 0xff) split ∙ bit_and-low 8 (w / 2 ^ 8) (w % 2 ^ 8) (omega arith)

lower : (m f g a b : ℕ) → m ≤ f → m ≤ g → m * (a + b) ≤ f * a + g * b
lower m f g a b h k = grind arith

upper : (m f g a b : ℕ) → f ≤ m → g ≤ m → f * a + g * b ≤ m * (a + b)
upper m f g a b h k = grind arith

blend-bounds :
    (fg bg alpha : ℕ)
    → fg < 2 ^ 8
    → bg < 2 ^ 8
    → alpha < 2 ^ 8
    → (min fg bg ≤ blend fg bg alpha) × (blend fg bg alpha ≤ max fg bg)
unfolding blend
blend-bounds fg bg alpha f b a =
    let whole : alpha + (255 - alpha) ≡ 255 = omega arith in
    let lo = lower (min fg bg) fg bg alpha (255 - alpha) (omega arith) (omega arith) in
    let hi = upper (max fg bg) fg bg alpha (255 - alpha) (omega arith) (omega arith) in
    let lo' : min fg bg * 255 ≤ fg * alpha + bg * (255 - alpha) =
      subst (λ w. min fg bg * w ≤ fg * alpha + bg * (255 - alpha)) whole lo in
    let hi' : fg * alpha + bg * (255 - alpha) ≤ max fg bg * 255 =
      subst (λ w. fg * alpha + bg * (255 - alpha) ≤ max fg bg * w) whole hi in
    (omega arith, omega arith)

-- The byte of a colour from bit `k` on.
abbrev pub channel : ℕ → ℕ → ℕ
channel k w = w / 2 ^ k % 2 ^ 8

abbrev pub Between : ℕ → ℕ → ℕ → Type 0
Between a b x = (min a b ≤ x) × (x ≤ max a b)

blend_byte : (fg bg alpha : ℕ) → blend fg bg alpha < 2 ^ 8
unfolding blend
blend_byte fg bg alpha = omega arith

blend-ends : (fg bg : ℕ) → fg < 2 ^ 8 → bg < 2 ^ 8 → (blend fg bg 255 ≡ fg) × (blend fg bg 0 ≡ bg)
unfolding blend
blend-ends fg bg f b = (omega arith, omega arith)

mix_sum :
    (color alpha : ℕ)
    → alpha < 2 ^ 8
    → mix color alpha
      ≡ blend (channel 16 color) (channel 48 color) alpha * 2 ^ 16
        + blend (channel 8 color) (channel 40 color) alpha * 2 ^ 8
        + blend (channel 0 color) (channel 32 color) alpha
unfolding mix
mix_sum color alpha a =
    rw
      (
        low_byte (color / 2 ^ 16),
        low_byte (color / 2 ^ 8),
        low_byte (color / 2 ^ 0),
        low_byte (color / 2 ^ 48),
        low_byte (color / 2 ^ 40),
        low_byte (color / 2 ^ 32),
      )
      (rgb-sum (blend (channel 16 color) (channel 48 color) alpha)
        (blend (channel 8 color) (channel 40 color) alpha)
        (blend (channel 0 color) (channel 32 color) alpha) (blend_byte _ _ alpha)
        (blend_byte _ _ alpha) (blend_byte _ _ alpha))

-- The three bytes of a blended colour are each between those of the foreground and the background, and
-- nothing is above them.
pub mix-bounds :
    (color alpha : ℕ)
    → alpha < 2 ^ 8
    → Between (channel 0 color) (channel 32 color) (channel 0 (mix color alpha))
      × Between (channel 8 color) (channel 40 color) (channel 8 (mix color alpha))
      × Between (channel 16 color) (channel 48 color) (channel 16 (mix color alpha))
      × (mix color alpha < 2 ^ 24)
unfolding mix
mix-bounds color alpha a =
    let one = λ (fg bg : ℕ) (f : fg < 2 ^ 8) (b : bg < 2 ^ 8). blend-bounds fg bg alpha f b a in
    let r = blend (channel 16 color) (channel 48 color) alpha in
    let g = blend (channel 8 color) (channel 40 color) alpha in
    let b = blend (channel 0 color) (channel 32 color) alpha in
    let (r_lo, r_hi) = one (channel 16 color) (channel 48 color) (omega arith) (omega arith) in
    let (g_lo, g_hi) = one (channel 8 color) (channel 40 color) (omega arith) (omega arith) in
    let (b_lo, b_hi) = one (channel 0 color) (channel 32 color) (omega arith) (omega arith) in
    let sum : mix color alpha ≡ r * 2 ^ 16 + g * 2 ^ 8 + b = mix_sum color alpha a in
    (
      (omega arith, omega arith),
      (omega arith, omega arith),
      (omega arith, omega arith),
      omega arith,
    )

-- A full glyph shows the foreground, an empty one the background.
pub mix-ends :
    (color : ℕ) → (mix color 255 ≡ color % 2 ^ 24) × (mix color 0 ≡ color / 2 ^ 32 % 2 ^ 24)
mix-ends color = (
  omega (
    arith,
    mix_sum color 255 (omega arith),
    blend-ends (channel 16 color) (channel 48 color) (omega arith) (omega arith),
    blend-ends (channel 8 color) (channel 40 color) (omega arith) (omega arith),
    blend-ends (channel 0 color) (channel 32 color) (omega arith) (omega arith),
  ),
  omega (
    arith,
    mix_sum color 0 (omega arith),
    blend-ends (channel 16 color) (channel 48 color) (omega arith) (omega arith),
    blend-ends (channel 8 color) (channel 40 color) (omega arith) (omega arith),
    blend-ends (channel 0 color) (channel 32 color) (omega arith) (omega arith),
  ),
)

abbrev cube_color : ℕ → ℕ
cube_color i = (i / 36 * 2 ^ 16 + i / 6 % 6 * 2 ^ 8 + i % 6) * 51

cube_table : (a : ℕ → ℕ) → all_below 216 (λ i. init_ansicolors a (16 + i) == cube_color i) ≡ true
unfolding init_ansicolors
cube_table a = refl

gray_table :
    (a : ℕ → ℕ)
    → all_below 24 (λ i. init_ansicolors a (232 + i) == (i + 1) * 51 / 5 * 0x010101) ≡ true
unfolding init_ansicolors
gray_table a = refl

base_table :
    (a : ℕ → ℕ) → all_below 16 (λ i. init_ansicolors a i == get_or ansi_4bit_colors i 0) ≡ true
unfolding init_ansicolors
base_table a = refl

-- The palette of 256 colours: the 16 of the 4-bit codes, the cube with 6 steps of 51 for each component, and the
-- grays between black and white.
pub init_ansicolors-colors :
    (a : ℕ → ℕ)
    → ((i : ℕ) → i < 16 → init_ansicolors a i ≡ get_or ansi_4bit_colors i 0)
      × ((r g b : ℕ)
          → r < 6
          → g < 6
          → b < 6
          → init_ansicolors a (16 + (36 * r + 6 * g + b)) ≡ (r * 2 ^ 16 + g * 2 ^ 8 + b) * 51)
      × ((i : ℕ) → i < 24 → init_ansicolors a (232 + i) ≡ (i + 1) * 51 / 5 * 0x010101)
init_ansicolors-colors a =
    let base_shown = λ (i : ℕ). init_ansicolors a i == get_or ansi_4bit_colors i 0 in
    let cube_shown = λ (i : ℕ). init_ansicolors a (16 + i) == cube_color i in
    let gray_shown = λ (i : ℕ). init_ansicolors a (232 + i) == (i + 1) * 51 / 5 * 0x010101 in
    (
      λ i lt.
          (==_iff (init_ansicolors a i) _).0 (all_below_sound 16 base_shown i (base_table a) lt),
      λ r g b rl gl bl.
          let i = 36 * r + 6 * g + b in
          let shown : init_ansicolors a (16 + i) ≡ cube_color i =
            (==_iff _ _).0 (all_below_sound 216 cube_shown i (cube_table a) (omega arith)) in
          omega (arith, shown),
      λ i lt. (==_iff _ _).0 (all_below_sound 24 gray_shown i (gray_table a) lt),
    )
