-- ===== src/Tty/Tests.antt =====
-- A screen of 4 lines of 10 cells, and what sequences of characters do on it.
use pzos.Base.{ℕ, ◌+◌, ◌-◌, ◌*◌, ◌/◌, ◌%◌, ◌^◌, ◌<◌, ◌≡◌, refl, arith, Option, some, none, min}
use pzos.Base.{[], ◌∷◌, true, false, ◌==◌, if◌then◌else◌, get_or}
use pzos.Tty.Colors.{
  mix, init_ansicolors, ansi_4bit_colors, rendition, renditions, foreground, background, color_pair,
}
use pzos.Tty.Screen.{Tty, tty_drawcursor}
use pzos.Tty.Escape.{
  finish, parse_args, run_command, parseescape, cursor_forward, cursor_backward, cursor_column,
}
use pzos.Tty.Write.{parsecontrol, tty_putchar_locked, tty_write, ◌>>=◌}
use pzos.Tty.Cursor.{IsInside, IsAt, moved, cursor_forward-IsAt, cursor_column-zero}
use pzos.Tty.Commands.{EndsInside}
use pzos.Tty.Backward.{cursor_backward-IsAt, cursor_backward-top}
use pzos.Tty.Inside.{tty_putchar-IsInside}
use pzos.Tty.Blending.{Between, channel, mix-bounds, init_ansicolors-colors}
use pzos.Tty.Rendition.{rendition-background, rendition-foreground}
use pzos.Tty.Sequences.{put_all, put_from, tty_write-put_from}

abbrev zeros : ℕ → ℕ
zeros i = 0

abbrev tty : Tty
tty = record {
  row = 1;
  col = 3;
  color = 0xaaaaaa;
  width = 10;
  height = 4;
  screen = zeros;
  backbuf = zeros;
  used = zeros;
  buf_height = 68;
  buf_pitch = 360;
  cur_x = 3;
  cur_y = 1;
  escapebuf = zeros;
  escapebuf_len = 0;
  escapebuf_active = false;
  serial = [];
}

tty-IsInside : IsInside tty
tty-IsInside = record {
  col_lt = omega arith;
  row_lt = omega arith;
  width_lt = omega arith;
  height_lt = omega arith;
}

-- ESC [ and what is in `text`.
abbrev sequence : Tty → Option Tty
sequence t =
    put_all zeros zeros zeros 1 80 (0x1b ∷ b'[' ∷ b'3' ∷ b'1' ∷ b';' ∷ b'4' ∷ b'4' ∷ b'm' ∷ []) t

abbrev color_of : Option Tty → ℕ
color_of none = 0
color_of (some t) = t.color

colors_run : color_of (sequence tty) ≡ 0xaa00aa0000
unfolding put_all tty_putchar_locked tty_drawcursor parsecontrol parseescape finish parse_args
    run_command renditions rendition color_pair
colors_run = refl

cursor_forward-IsAt_example :
    (t' : Tty) × (cursor_forward 4 30 tty ≡ some t') × IsAt (min 43 39) tty t'
cursor_forward-IsAt_example = cursor_forward-IsAt 4 30 tty tty-IsInside (omega arith) (omega arith)

cursor_backward-IsAt_example :
    (t' : Tty) × (cursor_backward 3 5 tty ≡ some t') × IsAt (13 - 5) tty t'
cursor_backward-IsAt_example =
    cursor_backward-IsAt 3 5 tty tty-IsInside (omega arith) (omega arith) (omega arith)

cursor_backward-top_example :
    cursor_backward 3 100 tty ≡ some (moved 0 ((20 + 2 ^ 64 - 100) % 2 ^ 64) tty)
cursor_backward-top_example =
    cursor_backward-top 3 100 tty tty-IsInside (omega arith) (omega arith) (omega arith)

cursor_column-zero_test : (cursor_column (record { args = zeros; count = 1 }) tty).col ≡ 9
cursor_column-zero_test =
    cursor_column-zero (record { args = zeros; count = 1 }) tty tty-IsInside (omega arith) refl

tty_putchar-IsInside_example : EndsInside (tty_putchar_locked zeros zeros zeros 1 69 b'\n' tty)
tty_putchar-IsInside_example =
    tty_putchar-IsInside zeros zeros zeros 0 69 b'\n' tty (omega arith) (omega arith) tty-IsInside
      (omega arith) (λ on. cc) (λ k lt. absurd (omega arith))

mix-bounds_example :
    Between
      (channel 0 0xaa0000aaaa00)
      (channel 32 0xaa0000aaaa00)
      (channel 0 (mix 0xaa0000aaaa00 100))
    × Between
        (channel 8 0xaa0000aaaa00)
        (channel 40 0xaa0000aaaa00)
        (channel 8 (mix 0xaa0000aaaa00 100))
    × Between
        (channel 16 0xaa0000aaaa00)
        (channel 48 0xaa0000aaaa00)
        (channel 16 (mix 0xaa0000aaaa00 100))
    × (mix 0xaa0000aaaa00 100 < 2 ^ 24)
mix-bounds_example = mix-bounds 0xaa0000aaaa00 100 (omega arith)

init_ansicolors-colors_test :
    ((i : ℕ) → i < 16 → init_ansicolors zeros i ≡ get_or ansi_4bit_colors i 0)
    × ((r g b : ℕ)
        → r < 6
        → g < 6
        → b < 6
        → init_ansicolors zeros (16 + (36 * r + 6 * g + b)) ≡ (r * 2 ^ 16 + g * 2 ^ 8 + b) * 51)
    × ((i : ℕ) → i < 24 → init_ansicolors zeros (232 + i) ≡ (i + 1) * 51 / 5 * 0x010101)
init_ansicolors-colors_test = init_ansicolors-colors zeros

abbrev red : ℕ → ℕ
red i = if i == 0 then 31 else 0

abbrev on_blue : ℕ → ℕ
on_blue i = if i == 0 then 104 else 0

red_lt : (k : ℕ) → red k < 2 ^ 8
red_lt k = ground arith

rendition-background_test :
    (background (rendition zeros red 0 0xaa00aaaaaa).color ≡ background 0xaa00aaaaaa)
    × ((rendition zeros red 0 0xaa00aaaaaa).color < 2 ^ 64)
rendition-background_test =
    rendition-background zeros (λ i. omega arith) red red_lt 0xaa00aaaaaa (omega arith) 0 refl

rendition-foreground_example :
    (foreground (rendition zeros on_blue 0 0xaa00aaaaaa).color ≡ foreground 0xaa00aaaaaa)
    × ((rendition zeros on_blue 0 0xaa00aaaaaa).color < 2 ^ 64)
rendition-foreground_example = rendition-foreground zeros on_blue 0xaa00aaaaaa (omega arith) 0 refl

-- ESC and `c` have been written.
abbrev waiting : Tty
waiting = record tty {
  escapebuf = λ i. if i == 0 then b'c' else 0;
  escapebuf_len = 1;
  escapebuf_active = true;
}

abbrev word : ℕ → ℕ
word i = if i == 0 then b'o' else b'k'

word-IsPlain : (k : ℕ) → k < 2 → pzos.Tty.Sequences.IsPlain zeros zeros zeros (word k)
word-IsPlain k lt = ground arith

tty_write-put_from_example :
    tty_write zeros zeros zeros 1 3 word 2 tty
    ≡ (put_from zeros zeros zeros 1 3 word 2 0 tty >>= λ t'. some (tty_drawcursor t'))
tty_write-put_from_example =
    tty_write-put_from zeros zeros zeros 0 3 word 2 tty word-IsPlain refl (omega arith)
