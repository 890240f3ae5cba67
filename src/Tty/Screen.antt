-- ===== src/Tty/Screen.antt =====
-- kernel/src/tty.c: the state of the terminal and its drawing. The frame buffer and its copy are two
-- arrays of bytes; an offset into them wraps around at 2 ^ 64. The glyphs, which the build brings in from
-- a file, are a function from indices.
use pzos.Base.{ℕ, zero, suc, ◌+◌, ◌-◌, ◌*◌, ◌/◌, ◌%◌, ◌^◌, max, bit_and, Bool, List}
use pzos.Base.{ltb, ◌==◌, ◌&&◌, not, if◌then◌else◌}
use pzos.Base.Int.{signed, to_size}
use pzos.Memory.{Bytes, store, in_range, memset, memcpy}
use pzos.Tty.Colors.{mix}

abbrev pub glyph_width : ℕ
glyph_width = 9

abbrev pub glyph_height : ℕ
glyph_height = 17

-- tty_row, tty_col, tty_color, tty_width, tty_height; tty_buf is `screen`. `serial` is what was
-- written to the serial port.
pub record Tty : Type 0 where
  pub row : ℕ
  pub col : ℕ
  pub color : ℕ
  pub width : ℕ
  pub height : ℕ
  pub screen : Bytes
  pub backbuf : Bytes
  pub used : ℕ → ℕ
  pub buf_height : ℕ
  pub buf_pitch : ℕ
  pub cur_x : ℕ
  pub cur_y : ℕ
  pub escapebuf : Bytes
  pub escapebuf_len : ℕ
  pub escapebuf_active : Bool
  pub serial : List ℕ

-- memcpy from one array to another.
abbrev pub copy_between : ℕ → ℕ → ℕ → Bytes → Bytes → Bytes
copy_between d s n from to j = if in_range d n j then from (s + (j - d)) else to j

-- `*(uint32_t *)p = v`
abbrev pub store4 : ℕ → ℕ → Bytes → Bytes
store4 p v m =
    store (p + 3) (v / 2 ^ 24)
      (store (p + 2) (v / 2 ^ 16) (store (p + 1) (v / 2 ^ 8) (store p v m)))

-- The offset of the top left pixel of a cell.
abbrev pub cell : ℕ → ℕ → ℕ → ℕ
cell pitch x y = (pitch * y * glyph_height + 4 * x * glyph_width) % 2 ^ 64

unfoldable pub copy_rows : ℕ → ℕ → ℕ → Bytes → Bytes → Bytes
copy_rows zero pitch idx from to = to
copy_rows (suc n) pitch idx from to =
    copy_rows n pitch ((idx + pitch) % 2 ^ 64) from (copy_between idx idx (glyph_width * 4) from to)

-- Pixel `i` of the cursor and the one below it, for the last `n` values of `i`.
unfoldable pub cursor_line : ℕ → ℕ → ℕ → ℕ → ℕ → Bytes → Bytes
cursor_line zero pitch idx ink i m = m
cursor_line (suc n) pitch idx ink i m =
    cursor_line n pitch idx ink (i + 1)
      (store4 (idx + pitch + 4 * i) ink (store4 (idx + 4 * i) ink m))

unfoldable pub tty_drawcursor : Tty → Tty
tty_drawcursor t =
    let pitch = t.buf_pitch in
    let clean =
      if not (t.cur_x == 2 ^ 64 - 1) && not (t.cur_y == 2 ^ 64 - 1)
      then copy_rows glyph_height pitch (cell pitch t.cur_x t.cur_y) t.backbuf t.screen
      else t.screen in
    let x = t.col * glyph_width in
    let y = t.row * glyph_height + 15 in
    record t {
      screen =
          cursor_line glyph_width pitch ((pitch * y + 4 * x) % 2 ^ 64) (bit_and t.color 0xffffff) 0
            clean;
      cur_x = t.col;
      cur_y = t.row;
    }

unfoldable pub tty_clear : Tty → Tty
unfolding tty_drawcursor
tty_clear t = tty_drawcursor (record t {
  screen = memset 0 0 (t.buf_pitch * t.buf_height % 2 ^ 64) t.screen;
  backbuf = memset 0 0 (t.buf_pitch * t.buf_height % 2 ^ 64) t.backbuf;
  used = λ i. if ltb i t.height then 0 else t.used i;
  row = 0;
  col = 0;
})

unfoldable pub clear_rows : ℕ → ℕ → ℕ → Bytes → Bytes
clear_rows zero pitch index m = m
clear_rows (suc n) pitch index m =
    clear_rows n pitch ((index + pitch) % 2 ^ 64) (memset index 0 (glyph_width * 4) m)

unfoldable pub tty_clearcell : ℕ → ℕ → Tty → Tty
tty_clearcell x y t =
    let index = cell t.buf_pitch x y in
    record t {
      screen = clear_rows glyph_height t.buf_pitch index t.screen;
      backbuf = clear_rows glyph_height t.buf_pitch index t.backbuf;
    }

abbrev pub set_used : ℕ → ℕ → (ℕ → ℕ) → ℕ → ℕ
set_used y n used j = if j == y then n % 2 ^ 32 else used j

unfoldable pub tty_clearline : ℕ → Tty → Tty
tty_clearline y t =
    let index = t.buf_pitch * y * glyph_height % 2 ^ 64 in
    let count = t.buf_pitch * glyph_height % 2 ^ 64 in
    record t {
      screen = memset index 0 count t.screen;
      backbuf = memset index 0 count t.backbuf;
      used = set_used y 0 t.used;
    }

-- The pixels of one row of a glyph, from `x` on, then its rows, from `y` on.
unfoldable pub blit_row : ℕ → ℕ → ℕ → (ℕ → ℕ) → Bytes → Bytes
blit_row zero x index pixel m = m
blit_row (suc n) x index pixel m =
    blit_row n (x + 1) index pixel (store4 (index + 4 * x) (pixel x) m)

unfoldable pub blit_rows : ℕ → ℕ → ℕ → ℕ → (ℕ → ℕ → ℕ) → Bytes → Bytes
blit_rows zero y pitch index pixel m = m
blit_rows (suc n) y pitch index pixel m =
    blit_rows n (y + 1) pitch ((index + pitch) % 2 ^ 64) pixel
      (blit_row glyph_width 0 index (pixel y) m)

-- `((c - 0x20) * GLYPH_HEIGHT + y) * GLYPH_WIDTH + x`, where a char is signed.
abbrev pub glyph_index : ℕ → ℕ → ℕ → ℕ
glyph_index c y x =
    (((to_size (signed 8 c) + 2 ^ 64 - 0x20) * glyph_height + y) * glyph_width + x) % 2 ^ 64

module _ (glyphs : ℕ → ℕ) where
  -- Both buffers get the same pixels.
  unfoldable pub tty_blitchar : ℕ → ℕ → ℕ → Tty → Tty
  tty_blitchar c x y t =
      let index = cell t.buf_pitch x y in
      let pixel = λ (py : ℕ) (px : ℕ). mix t.color (glyphs (glyph_index c py px)) in
      record t {
        screen = blit_rows glyph_height 0 t.buf_pitch index pixel t.screen;
        backbuf = blit_rows glyph_height 0 t.buf_pitch index pixel t.backbuf;
        used = set_used y (max (t.used y) ((x + 1) % 2 ^ 64)) t.used;
      }

-- The rows of pixels of one line: each goes to both buffers.
unfoldable pub scroll_rows : ℕ → ℕ → ℕ → ℕ → Tty → Tty
scroll_rows zero dst src count t = t
scroll_rows (suc n) dst src count t =
    scroll_rows n ((dst + t.buf_pitch) % 2 ^ 64) ((src + t.buf_pitch) % 2 ^ 64) count (record t {
      screen = copy_between dst src count t.backbuf t.screen;
      backbuf = memcpy dst src count t.backbuf;
    })

-- The lines from `i` on.
unfoldable pub scroll_lines : ℕ → ℕ → Tty → Tty
scroll_lines zero i t = t
scroll_lines (suc n) i t =
    let dst = t.buf_pitch * i * glyph_height % 2 ^ 64 in
    let src = t.buf_pitch * (i + 1) * glyph_height % 2 ^ 64 in
    let count = max (t.used i) (t.used (i + 1)) * glyph_width * 4 % 2 ^ 64 in
    let moved = scroll_rows glyph_height dst src count t in
    scroll_lines n (i + 1) (record moved { used = set_used i (moved.used (i + 1)) moved.used })

unfoldable pub tty_scroll : Tty → Tty
tty_scroll s =
    let t = scroll_lines s.height 0 s in
    let last = (t.height + 2 ^ 64 - 1) % 2 ^ 64 in
    let start = last * glyph_height * t.buf_pitch % 2 ^ 64 in
    let count = t.used last * glyph_height * 4 % 2 ^ 32 in
    record t {
      backbuf = memset start 0 count t.backbuf;
      screen = memset start 0 count t.screen;
      used = set_used last 0 t.used;
    }
