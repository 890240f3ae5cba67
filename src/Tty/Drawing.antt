-- ===== src/Tty/Drawing.antt =====
-- Drawing leaves the cursor, the size of the screen and the escape sequence as they are.
use pzos.Base.{ℕ, zero, suc, ◌+◌, ◌≡◌, refl, ap, ◌∙◌, Bool, false, []}
use pzos.Memory.{Bytes}
use pzos.Tty.Screen.{
  Tty, tty_drawcursor, tty_clearline, tty_blitchar, scroll_rows, scroll_lines, tty_scroll,
  glyph_height,
}

pub record Text : Type 0 where
  pub row : ℕ
  pub col : ℕ
  pub color : ℕ
  pub width : ℕ
  pub height : ℕ
  pub escapebuf : Bytes
  pub escapebuf_len : ℕ
  pub escapebuf_active : Bool

-- What drawing does not change.
abbrev pub text : Tty → Text
text t = record {
  row = t.row;
  col = t.col;
  color = t.color;
  width = t.width;
  height = t.height;
  escapebuf = t.escapebuf;
  escapebuf_len = t.escapebuf_len;
  escapebuf_active = t.escapebuf_active;
}

pub tty_drawcursor-text : (t : Tty) → text (tty_drawcursor t) ≡ text t
unfolding tty_drawcursor
tty_drawcursor-text t = refl

pub tty_clearline-text : (y : ℕ) (t : Tty) → text (tty_clearline y t) ≡ text t
unfolding tty_clearline
tty_clearline-text y t = refl

pub tty_blitchar-text :
    (glyphs : ℕ → ℕ) (c x y : ℕ) (t : Tty) → text (tty_blitchar glyphs c x y t) ≡ text t
unfolding tty_blitchar
tty_blitchar-text glyphs c x y t = refl

scroll_rows-text : (n dst src count : ℕ) (t : Tty) → text (scroll_rows n dst src count t) ≡ text t
unfolding scroll_rows
scroll_rows-text zero dst src count t = refl
scroll_rows-text (suc n) dst src count t = scroll_rows-text n _ _ count _

scroll_lines-text : (n i : ℕ) (t : Tty) → text (scroll_lines n i t) ≡ text t
unfolding scroll_lines
scroll_lines-text zero i t = refl
scroll_lines-text (suc n) i t =
    scroll_lines-text n (i + 1) _ ∙ scroll_rows-text glyph_height _ _ _ t

pub tty_scroll-text : (t : Tty) → text (tty_scroll t) ≡ text t
unfolding tty_scroll
tty_scroll-text t = scroll_lines-text t.height 0 t

-- What the user sees, with its copy and the place of the cursor.
pub record Picture : Type 0 where
  pub row : ℕ
  pub col : ℕ
  pub color : ℕ
  pub width : ℕ
  pub height : ℕ
  pub screen : Bytes
  pub backbuf : Bytes
  pub used : ℕ → ℕ
  pub buf_height : ℕ
  pub buf_pitch : ℕ
  pub cur_x : ℕ
  pub cur_y : ℕ

abbrev pub picture : Tty → Picture
picture t = record {
  row = t.row;
  col = t.col;
  color = t.color;
  width = t.width;
  height = t.height;
  screen = t.screen;
  backbuf = t.backbuf;
  used = t.used;
  buf_height = t.buf_height;
  buf_pitch = t.buf_pitch;
  cur_x = t.cur_x;
  cur_y = t.cur_y;
}

-- The cursor is drawn `n` times.
unfoldable pub redraw : ℕ → Tty → Tty
unfolding tty_drawcursor
redraw zero t = t
redraw (suc n) t = redraw n (tty_drawcursor t)

on_picture : Picture → Tty
on_picture p = record {
  row = p.row;
  col = p.col;
  color = p.color;
  width = p.width;
  height = p.height;
  screen = p.screen;
  backbuf = p.backbuf;
  used = p.used;
  buf_height = p.buf_height;
  buf_pitch = p.buf_pitch;
  cur_x = p.cur_x;
  cur_y = p.cur_y;
  escapebuf = λ i. 0;
  escapebuf_len = 0;
  escapebuf_active = false;
  serial = [];
}

-- Drawing the cursor does not read the escape sequence.
pub tty_drawcursor-picture :
    (t u : Tty) → picture t ≡ picture u → picture (tty_drawcursor t) ≡ picture (tty_drawcursor u)
unfolding tty_drawcursor on_picture
tty_drawcursor-picture t u same = ap (λ p. picture (tty_drawcursor (on_picture p))) same

pub redraw-picture :
    (n : ℕ) (t u : Tty) → picture t ≡ picture u → picture (redraw n t) ≡ picture (redraw n u)
unfolding redraw
redraw-picture zero t u same = same
redraw-picture (suc n) t u same =
    redraw-picture n (tty_drawcursor t) (tty_drawcursor u) (tty_drawcursor-picture t u same)

-- Only the screen and the place of the cursor on it change.
pub redraw-backbuf :
    (n : ℕ) (t : Tty) → ((redraw n t).backbuf ≡ t.backbuf) × ((redraw n t).used ≡ t.used)
unfolding redraw tty_drawcursor
redraw-backbuf zero t = (refl, refl)
redraw-backbuf (suc n) t = redraw-backbuf n (tty_drawcursor t)
