-- ===== src/Tty/Sequences.antt =====
-- What tty_putchar does with the characters behind ESC, and tty_write with plain text.
use pzos.Base.{ℕ, zero, suc, ◌+◌, ◌<◌, ◌≡◌, ◌≢◌, refl, arith, some, ap, ◌∙◌}
use pzos.Base.{◌++◌, ltb, true, false, Bool, Option, List, length, subst, if◌then◌else◌, ◌∷◌, []}
use pzos.Tty.Screen.{Tty, tty_drawcursor, tty_blitchar}
use pzos.Tty.Escape.{size}
use pzos.Tty.Write.{
  next_row, advance, draw, serial_write, parsecontrol, one_char, write_loop, tty_putchar_locked,
  tty_write, ◌>>=◌, echo,
}
use pzos.Tty.Drawing.{Text, tty_scroll-text, picture, redraw}
use pzos.Tty.Inside.{tty_putchar_plain}

-- What the kept characters `cs` leave of `t`: they are behind the sequence and went to the serial port, the
-- picture is that of `t` with the cursor drawn again where it was, and nothing is drawn beside it.
pub record KeepsScreen (cs : List ℕ) (t t' : Tty) : Type 0 where
  pub same : picture t' ≡ picture (redraw (length cs) t)
  pub row : t'.row ≡ t.row
  pub col : t'.col ≡ t.col
  pub color : t'.color ≡ t.color
  pub backbuf : t'.backbuf ≡ t.backbuf
  pub used : t'.used ≡ t.used
  pub active : t'.escapebuf_active ≡ true
  pub len : t'.escapebuf_len ≡ t.escapebuf_len + length cs
  pub first : t'.escapebuf 0 ≡ t.escapebuf 0
  pub serial : t'.serial ≡ t.serial ++ cs

if_off : (b : Bool) (x y : Option Tty) → b ≡ false → (if b then x else y) ≡ y
if_off true x y h = cc
if_off false x y h = refl

next_row-active : (t : Tty) → (next_row t).escapebuf_active ≡ t.escapebuf_active
unfolding next_row
next_row-active t = ground (
  arith,
  ap (λ (x : Text). x.escapebuf_active) (tty_scroll-text (record t { row = size (t.row + 1) })),
)

advance-active : (t : Tty) → (advance t).escapebuf_active ≡ t.escapebuf_active
advance-active t = ground (arith, next_row-active (record t { col = 0 }))

module _ (palette stack glyphs : ℕ → ℕ) where
  -- tty_putchar for each character of a list.
  unfoldable pub put_all : ℕ → ℕ → List ℕ → Tty → Option Tty
  put_all depth f [] t = some t
  put_all depth f (c ∷ cs) t =
      tty_putchar_locked palette stack glyphs depth f c t >>= λ t'. put_all depth f cs t'

  abbrev pub IsPlain : ℕ → Type 0
  IsPlain c = (c ≢ 0) × (c ≢ b'\n') × (c ≢ 8) × (c ≢ b'\t') × (c ≢ b'\r') × (c ≢ 0x1b)

  parsecontrol-plain :
      (f : ℕ) (s : ℕ → ℕ) (t : Tty)
      → IsPlain (s 0)
      → parsecontrol palette stack glyphs (suc f) s 0 t ≡ some (t, 0)
  unfolding parsecontrol
  parsecontrol-plain f s t plain = ground arith

  printed : ℕ → Tty → Tty
  printed c t = tty_drawcursor (draw palette stack glyphs c (serial_write c t))

  printed-active : (c : ℕ) (t : Tty) → (printed c t).escapebuf_active ≡ t.escapebuf_active
  unfolding printed draw tty_drawcursor tty_blitchar
  printed-active c t = advance-active (tty_blitchar glyphs c t.col t.row (serial_write c t))

  tty_putchar-printed :
      (depth f c : ℕ) (t : Tty)
      → IsPlain c
      → t.escapebuf_active ≡ false
      → tty_putchar_locked palette stack glyphs (suc depth) (suc f) c t ≡ some (printed c t)
  unfolding printed
  tty_putchar-printed depth f c t plain off =
      rw
        (
          tty_putchar_plain palette stack glyphs depth (suc f) c t off,
          parsecontrol-plain f (one_char palette stack glyphs c) (serial_write c t) plain,
        )
        refl

  -- tty_putchar for the characters from `i` on.
  unfoldable pub put_from : ℕ → ℕ → (ℕ → ℕ) → ℕ → ℕ → Tty → Option Tty
  put_from depth f s zero i t = some t
  put_from depth f s (suc m) i t = tty_putchar_locked palette stack glyphs depth f (s i) t >>= λ t'.
      put_from depth f s m (i + 1) t'

  write_loop-put_from :
      (depth f g : ℕ) (s : ℕ → ℕ) (m i : ℕ) (t : Tty)
      → ((k : ℕ) → k < i + m → IsPlain (s k))
      → t.escapebuf_active ≡ false
      → m < f
      → write_loop palette stack glyphs
          (tty_putchar_locked palette stack glyphs (suc depth) (suc g))
          f
          (λ _ k. s k)
          (i + m)
          i
          t
        ≡ (put_from (suc depth) (suc g) s m i t >>= λ t'. some (tty_drawcursor t'))
  unfolding write_loop put_from echo
  write_loop-put_from depth zero g s m i t plain off fuel = absurd (omega arith)
  write_loop-put_from depth (suc f) g s zero i t plain off fuel = ground arith
  write_loop-put_from depth (suc f) g s (suc m) i t plain off fuel =
      let parsed : parsecontrol palette stack glyphs (suc f) (λ k. s (i + k)) 0 t ≡ some (t, 0) =
        parsecontrol-plain f (λ k. s (i + k)) t (plain (i + 0) (omega arith)) in
      let inside : ltb i (i + suc m) ≡ true = ground arith in
      let here : i + 0 ≡ i = omega arith in
      let put = tty_putchar-printed depth g (s i) t (plain i (omega arith)) off in
      let ends : i + suc m ≡ i + 1 + m = omega arith in
      let rest =
        write_loop-put_from depth f g s m (i + 1) (printed (s i) t) (λ k lt. plain k (omega arith))
          (printed-active (s i) t ∙ off) (omega arith) in
      rw (write_loop, inside)
        (if_off t.escapebuf_active _ _ off ∙ rw (parsed, echo, here, inside, put, ends) rest)

  -- With no escape sequence active, tty_write of plain text is tty_putchar for each of its characters, and
  -- the cursor drawn once more.
  pub tty_write-put_from :
      (depth f : ℕ) (s : ℕ → ℕ) (n : ℕ) (t : Tty)
      → ((k : ℕ) → k < n → IsPlain (s k))
      → t.escapebuf_active ≡ false
      → n < f
      → tty_write palette stack glyphs (suc depth) f s n t
        ≡ (put_from (suc depth) f s n 0 t >>= λ t'. some (tty_drawcursor t'))
  unfolding tty_write
  tty_write-put_from depth zero s n t plain off fuel = absurd (omega arith)
  tty_write-put_from depth (suc f) s n t plain off fuel =
      let all : 0 + n ≡ n = omega arith in
      let put = tty_putchar_locked palette stack glyphs (suc depth) (suc f) in
      subst
        (λ k.
          write_loop palette stack glyphs put (suc f) (λ _ j. s j) k 0 t
          ≡ (put_from (suc depth) (suc f) s n 0 t >>= λ t'. some (tty_drawcursor t')))
        all (write_loop-put_from depth (suc f) f s n 0 t (λ k lt. plain k (omega arith)) off fuel)
