-- ===== src/Tty/Rendition.antt =====
-- The arguments of a graphic rendition: each sets one half of the colour, or both.
use pzos.Base.{ℕ, ◌+◌, ◌-◌, ◌*◌, ◌/◌, ◌%◌, ◌^◌, ◌<◌, ◌≡◌, refl, arith, true}
use pzos.Base.{ltb, ap, ◌∙◌, ◌||◌, get_or, all_below_sound, ltb→lt}
use pzos.Base.Bits.{bit_and-low, bit_or-add}
use pzos.Tty.Colors.{
  color_pair, foreground, background, rendition, special, true_color, extend, from_to,
  ansi_3bit_colors, ansi_4bit_colors, white, black,
}
use pzos.Tty.Blending.{rgb-sum}
use pzos.Tty.Cursor.{extend-small}

color_pair-sum : (fg bg : ℕ) → fg < 2 ^ 32 → bg < 2 ^ 32 → color_pair fg bg ≡ bg * 2 ^ 32 + fg
unfolding color_pair
color_pair-sum fg bg f b =
    let small : bg * 2 ^ 32 % 2 ^ 64 ≡ bg * 2 ^ 32 = omega arith in rw small (bit_or-add 32 bg fg f)

foreground-low : (w : ℕ) → foreground w ≡ w % 2 ^ 32
foreground-low w =
    let split : w ≡ w / 2 ^ 32 * 2 ^ 32 + w % 2 ^ 32 = omega arith in
    ap foreground split ∙ bit_and-low 32 (w / 2 ^ 32) (w % 2 ^ 32) (omega arith)

-- Both halves of a pair.
pub color_pair-halves :
    (fg bg : ℕ)
    → fg < 2 ^ 32
    → bg < 2 ^ 32
    → (foreground (color_pair fg bg) ≡ fg) × (background (color_pair fg bg) ≡ bg)
color_pair-halves fg bg f b =
    let sum = color_pair-sum fg bg f b in
    (foreground-low (color_pair fg bg) ∙ omega arith, omega arith)

three_bits : (i : ℕ) → i < 8 → get_or ansi_3bit_colors i 0 < 2 ^ 32
three_bits i lt =
    ltb→lt _ _ (all_below_sound 8 (λ i. ltb (get_or ansi_3bit_colors i 0) (2 ^ 32)) i refl lt)

four_bits : (i : ℕ) → i < 16 → get_or ansi_4bit_colors i 0 < 2 ^ 32
four_bits i lt =
    ltb→lt _ _ (all_below_sound 16 (λ i. ltb (get_or ansi_4bit_colors i 0) (2 ^ 32)) i refl lt)

true_color-lt : (args : ℕ → ℕ) (j : ℕ) → ((k : ℕ) → args k < 2 ^ 8) → true_color args j < 2 ^ 24
true_color-lt args j bytes =
    let small : args (j + 2) * 2 ^ 8 % 2 ^ 32 ≡ args (j + 2) * 2 ^ 8 =
      omega (arith, bytes (j + 2)) in
    rw
      (
        small,
        rgb-sum (args (j + 1)) (args (j + 2)) (args (j + 3)) (bytes (j + 1)) (bytes (j + 2))
            (bytes (j + 3)),
      )
      (omega (arith, bytes (j + 1), bytes (j + 2), bytes (j + 3)))

-- Codes for the foreground, and for the background.
abbrev pub SetsForeground : ℕ → Type 0
SetsForeground x = (from_to 30 39 x || from_to 90 97 x) ≡ true

abbrev pub SetsBackground : ℕ → Type 0
SetsBackground x = (from_to 40 49 x || from_to 100 107 x) ≡ true

module _ (palette : ℕ → ℕ) (words : (i : ℕ) → palette i < 2 ^ 32) (args : ℕ → ℕ)
    (bytes : (k : ℕ) → args k < 2 ^ 8) (color : ℕ) (word : color < 2 ^ 64) where
  abbrev pub Kept : ℕ → Type 0
  Kept c = (background c ≡ background color) × (c < 2 ^ 64)

  painted-Kept : (c : ℕ) → c < 2 ^ 32 → Kept (color_pair c (background color))
  painted-Kept c lt =
      let sum = color_pair-sum c (background color) lt (omega arith) in (omega arith, omega arith)

  special-Kept :
      (j : ℕ) → Kept (special palette (λ c. color_pair c (background color)) args j color).color
  unfolding special
  special-Kept j =
      let deep = true_color-lt args j bytes in
      let same : extend (true_color args j) ≡ true_color args j =
        extend-small (true_color args j) (omega arith) in
      ground (
        arith,
        painted-Kept (palette (args (j + 1))) (words (args (j + 1))),
        painted-Kept (extend (true_color args j)) (omega arith),
      )

  -- An argument for the foreground leaves the background as it is, if the palette has words of 32 bits
  -- and the arguments are bytes.
  pub rendition-background :
      (j : ℕ) → SetsForeground (args j) → Kept (rendition palette args j color).color
  unfolding rendition
  rendition-background j code =
      let x = args j in
      ground (
        arith,
        special-Kept (j + 1),
        painted-Kept (get_or ansi_3bit_colors (x - 30) 0),
        three_bits (x - 30),
        painted-Kept (get_or ansi_4bit_colors (x - 90 + 8) 0),
        four_bits (x - 90 + 8),
        painted-Kept white,
        three_bits 7,
      )

painted_under :
    (color c : ℕ)
    → (foreground (color_pair (foreground color) c) ≡ foreground color)
      × (color_pair (foreground color) c < 2 ^ 64)
unfolding color_pair
painted_under color c =
    let low : foreground color < 2 ^ 32 = omega (arith, foreground-low color) in
    let fits : c * 2 ^ 32 % 2 ^ 64 ≡ c % 2 ^ 32 * 2 ^ 32 = omega arith in
    let sum : color_pair (foreground color) c ≡ c % 2 ^ 32 * 2 ^ 32 + foreground color =
      rw fits (bit_or-add 32 (c % 2 ^ 32) (foreground color) low) in
    (foreground-low (color_pair (foreground color) c) ∙ omega (arith, sum), omega (arith, sum))

module _ (palette args : ℕ → ℕ) (color : ℕ) (word : color < 2 ^ 64) where
  abbrev pub KeptBelow : ℕ → Type 0
  KeptBelow c = (foreground c ≡ foreground color) × (c < 2 ^ 64)

  special_under :
      (j : ℕ)
      → KeptBelow (special palette (λ c. color_pair (foreground color) c) args j color).color
  unfolding special
  special_under j = ground (
    arith,
    painted_under color (palette (args (j + 1))),
    painted_under color (extend (true_color args j)),
  )

  -- An argument for the background leaves the foreground as it is, whatever the arguments behind it are.
  pub rendition-foreground :
      (j : ℕ) → SetsBackground (args j) → KeptBelow (rendition palette args j color).color
  unfolding rendition
  rendition-foreground j code =
      let x = args j in
      ground (
        arith,
        special_under (j + 1),
        painted_under color (get_or ansi_3bit_colors (x - 40) 0),
        painted_under color (get_or ansi_4bit_colors (x - 100 + 8) 0),
        painted_under color black,
      )
