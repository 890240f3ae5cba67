-- ===== src/Tty/Inside.antt =====
-- A character leaves the cursor on the screen.
use pzos.Base.{ℕ, zero, suc, ◌+◌, ◌^◌, ◌≤◌, ◌<◌, ◌≡◌, ◌≢◌, refl, inl, inr, some}
use pzos.Base.{ltb, ◌==◌, arith, Bool-cases, false, true, ap, ◌∙◌, Option, ◌++◌, ◌∷◌, []}
use pzos.Memory.{store}
use pzos.Tty.Screen.{Tty, tty_drawcursor, tty_blitchar}
use pzos.Tty.Escape.{Parsed, incomplete, give_up, command, finish, no_args, parseescape}
use pzos.Tty.Write.{
  newline, tab, backspace_column, carriage_return, parsecontrol, one_char, draw, tty_putchar_locked,
  put_plain, serial_write, ◌>>=◌,
}
use pzos.Tty.Cursor.{IsInside}
use pzos.Tty.Drawing.{tty_blitchar-text}
use pzos.Tty.Commands.{
  IsInside-text, tty_drawcursor-IsInside, advance-IsInside, newline-IsInside, tab-IsInside,
  backspace_column-IsInside, carriage_return-IsInside, inside_string, parse_args-ends,
  run_command-IsInside, NotBack, EndsInside,
}

-- The same with the number of characters.
abbrev EndsInside2 : Option (Tty × ℕ) → Type 0
EndsInside2 o = (t' : Tty) × (n : ℕ) × (o ≡ some (t', n)) × IsInside t'

module _ (palette stack glyphs : ℕ → ℕ) where
  finish-IsInside :
      (f : ℕ) (s : ℕ → ℕ) (t : Tty) (p : Parsed)
      → NotBack p
      → t.escapebuf_active ≡ true
      → IsInside t
      → t.height ≤ f
      → EndsInside2 (finish palette stack f s t (some p))
  unfolding finish
  finish-IsInside f s t (incomplete k) other active i fuel = (t, 0, rw active refl, i)
  finish-IsInside f s t give_up other active i fuel = (t, 0, refl, i)
  finish-IsInside f s t (command c k a) other active i fuel =
      let (t', e, i') =
        run_command-IsInside palette f c a
          (record t { escapebuf_active = false; escapebuf_len = 0 }) other (ground arith) fuel in
      (t', k, rw (finish, e) refl, i')

  -- The string is the one of an active sequence.
  parseescape-IsInside :
      (f n : ℕ) (s : ℕ → ℕ) (t : Tty)
      → s n ≡ 0
      → n < f
      → ((k : ℕ) → k < n → s k ≢ b'D')
      → t.escapebuf_active ≡ true
      → IsInside t
      → t.height ≤ f
      → EndsInside2 (parseescape palette stack f s t)
  unfolding parseescape
  parseescape-IsInside f n s t end fuel other active i rows = elim (Bool-cases (s 0 == 0)) [
    | inl e ↦ (record t { escapebuf_active = true }, 0, rw (parseescape, e) refl, ground arith)
    | inr char ↦ elim (Bool-cases (s 0 == b'[')) [
      | inl e ↦
          let (p, q, o) =
            parse_args-ends f s 1 n (no_args palette stack)
              (inside_string s 0 n (omega arith) end char) end (omega arith) other in
          rw (parseescape, char, e, q) (finish-IsInside f s t p o active i rows)
      | inr d ↦ (t, 0, rw (parseescape, char, d) refl, i)
    ]
  ]

  -- A character that is not part of a sequence.
  parsecontrol-IsInside :
      (f c : ℕ) (t : Tty)
      → IsInside t
      → t.height ≤ f
      → EndsInside2
          (parsecontrol palette stack glyphs (suc (suc f)) (one_char palette stack glyphs c) 0 t)
  unfolding parsecontrol parseescape
  parsecontrol-IsInside f c t i rows = elim (Bool-cases (c == 0)) [
    | inl e ↦ (t, 1, ground arith, i)
    | inr z ↦ elim (Bool-cases (c == b'\n')) [
      | inl e ↦ (newline t, 2, ground arith, newline-IsInside t i)
      | inr n ↦ elim (Bool-cases (c == 8)) [
        | inl e ↦ (backspace_column t, 2, ground arith, backspace_column-IsInside t i)
        | inr b ↦ elim (Bool-cases (c == b'\t')) [
          | inl e ↦ (tab t, 2, ground arith, tab-IsInside t i)
          | inr h ↦ elim (Bool-cases (c == b'\r')) [
            | inl e ↦ (carriage_return t, 2, ground arith, carriage_return-IsInside t i)
            | inr r ↦ elim (Bool-cases (c == 0x1b)) [
              | inl e ↦ (record t { escapebuf_active = true }, 1, ground arith, ground arith)
              | inr p ↦ (t, 0, ground arith, i)
            ]
          ]
        ]
      ]
    ]
  ]

  draw-IsInside : (c : ℕ) (t : Tty) → IsInside t → IsInside (draw palette stack glyphs c t)
  unfolding draw
  draw-IsInside c t i = advance-IsInside (tty_blitchar glyphs c t.col t.row t) (
      IsInside-text t (tty_blitchar glyphs c t.col t.row t)
        (tty_blitchar-text glyphs c t.col t.row t) i)

  put_plain-IsInside :
      (c : ℕ) (t : Tty) (n : ℕ) → IsInside t → EndsInside (put_plain palette stack glyphs c (t, n))
  put_plain-IsInside c t zero i = (
    tty_drawcursor (draw palette stack glyphs c t),
    refl,
    tty_drawcursor-IsInside _ (draw-IsInside c t i),
  )
  put_plain-IsInside c t (suc n) i = (tty_drawcursor t, ground arith, tty_drawcursor-IsInside t i)

  abbrev pub added : ℕ → Tty → Tty
  added c t =
      let n = t.escapebuf_len in
      record t {
        escapebuf = store (n + 1) 0 (store n c t.escapebuf);
        escapebuf_len = n + 1;
        serial = t.serial ++ c ∷ [];
      }

  pub tty_putchar_escaped :
      (depth f c : ℕ) (t : Tty)
      → t.escapebuf_active ≡ true
      → t.escapebuf_len < 63
      → tty_putchar_locked palette stack glyphs (suc depth) f c t ≡ (
          parseescape palette stack f (added c t).escapebuf (added c t) >>= λ (t', _).
          some (tty_drawcursor t'))
  unfolding tty_putchar_locked
  tty_putchar_escaped depth f c t on room =
      let small : ltb t.escapebuf_len 63 ≡ true = ground arith in
      rw (tty_putchar_locked, on, small) refl

  pub tty_putchar_plain :
      (depth f c : ℕ) (t : Tty)
      → t.escapebuf_active ≡ false
      → tty_putchar_locked palette stack glyphs (suc depth) f c t ≡ (
          parsecontrol palette stack glyphs f (one_char palette stack glyphs c) 0 (serial_write c t)
          >>= λ r. put_plain palette stack glyphs c r)
  unfolding tty_putchar_locked
  tty_putchar_plain depth f c t off = rw (tty_putchar_locked, off) refl

  -- A character other than 'D' leaves the cursor on the screen, whether it is drawn, controls the
  -- cursor, or belongs to an escape sequence of less than 63 characters that has no 'D' in it; and with
  -- fuel for the lines of the screen and for the sequence there is a result.
  pub tty_putchar-IsInside :
      (depth f c : ℕ) (t : Tty)
      → c < 2 ^ 8
      → c ≢ b'D'
      → IsInside t
      → t.height + 65 ≤ f
      → (t.escapebuf_active ≡ true → t.escapebuf_len < 63)
      → ((k : ℕ) → k < t.escapebuf_len → t.escapebuf k ≢ b'D')
      → EndsInside (tty_putchar_locked palette stack glyphs (suc depth) f c t)
  unfolding tty_putchar_locked
  tty_putchar-IsInside depth zero c t byte other i fuel room before = absurd (omega arith)
  tty_putchar-IsInside depth (suc zero) c t byte other i fuel room before = absurd (omega arith)
  tty_putchar-IsInside depth (suc (suc f)) c t byte other i fuel room before =
      elim (Bool-cases t.escapebuf_active) [
        | inl on ↦
            let n = t.escapebuf_len in
            let (t', m, e, i') =
              parseescape-IsInside (suc (suc f)) (n + 1) (added c t).escapebuf (added c t)
                (ground arith) (ground (arith, room on)) (λ k lt. ground (arith, before k)) on
                (ground arith) (omega arith) in
            (
              tty_drawcursor t',
              tty_putchar_escaped depth (suc (suc f)) c t on (room on)
                  ∙ ap (λ o. o >>= λ (u, _). some (tty_drawcursor u)) e,
              tty_drawcursor-IsInside t' i',
            )
        | inr off ↦
            let (t', m, e, i') =
              parsecontrol-IsInside f c (serial_write c t) (ground arith) (omega arith) in
            rw (tty_putchar_plain depth (suc (suc f)) c t off, e) (put_plain-IsInside c t' m i')
      ]
