-- ===== src/Tty/Write.antt =====
-- kernel/src/tty.c: control characters, tty_putchar, tty_write and tty_puts, with the lock held. A
-- write of a buffer that is in the state reads each character when it comes to it, so the text is a
-- function of the state.
use pzos.Base.{ℕ, zero, suc, ◌+◌, ◌-◌, ◌%◌, false, Option, none, some}
use pzos.Base.{[], ◌∷◌, ◌++◌, ltb, leb, ◌==◌, if◌then◌else◌}
use pzos.Memory.{store}
use pzos.Strings.{strlen}
use pzos.Tty.Screen.{Tty, tty_drawcursor, tty_scroll, tty_blitchar}
use pzos.Tty.Escape.{size, minus_one, parseescape}

abbrev pub tab_width : ℕ
tab_width = 8

abbrev pub serial_write : ℕ → Tty → Tty
serial_write c t = record t { serial = t.serial ++ c ∷ [] }

-- `if (++tty_row == tty_height)`
unfoldable pub next_row : Tty → Tty
next_row t =
    let down = record t { row = size (t.row + 1) } in
    let scrolled = tty_scroll down in
    if down.row == t.height then record scrolled { row = minus_one scrolled.row } else down

unfoldable pub newline : Tty → Tty
unfolding next_row tty_drawcursor
newline t = tty_drawcursor (record (next_row t) { col = 0 })

unfoldable pub backspace_column : Tty → Tty
backspace_column t =
    let col = minus_one t.col in record t { col = if leb t.width col then size (col + 1) else col }

unfoldable pub tab : Tty → Tty
unfolding next_row tty_drawcursor
tab t =
    let col = size (t.col + (tab_width - t.col % tab_width)) in
    tty_drawcursor
      (if leb t.width col then next_row (record t { col = 0 }) else record t { col = col })

unfoldable pub carriage_return : Tty → Tty
unfolding tty_drawcursor
carriage_return t = tty_drawcursor (record t { col = 0 })

infixl 5 ◌>>=◌
abbrev pub ◌>>=◌ : {A B : Type 0} → Option A → (A → Option B) → Option B
none >>= f = none
some a >>= f = f a

-- The state and the place behind a character.
abbrev pub advance : Tty → Tty
advance t =
    let col = size (t.col + 1) in
    if col == t.width then next_row (record t { col = 0 }) else record t { col = col }

module _ (palette stack glyphs : ℕ → ℕ) where
  -- The loop from `i` on. The result is the state and the number of characters.
  unfoldable pub parsecontrol : ℕ → (ℕ → ℕ) → ℕ → Tty → Option (Tty × ℕ)
  parsecontrol zero s i t = none
  parsecontrol (suc f) s i t =
      let c = s i in
      let next = λ (t' : Tty). parsecontrol f s (i + 1) t' in
      let after_newline = next (newline t) in
      let after_backspace = next (backspace_column t) in
      let after_tab = next (tab t) in
      let after_return = next (carriage_return t) in
      if c == 0
      then some (t, i + 1)
      else if c == b'\n'
      then after_newline
      else if c == 8
      then after_backspace
      else if c == b'\t'
      then after_tab
      else if c == b'\r'
      then after_return
      else if c == 0x1b
      then (parseescape palette stack (suc f) (λ k. s (i + 1 + k)) t >>= λ (t', n).
          some (t', i + 1 + n))
      else some (t, i)

  -- A character that is drawn.
  unfoldable pub draw : ℕ → Tty → Tty
  draw c t = advance (tty_blitchar glyphs c t.col t.row t)

  -- `for (; off-- > 0; i++) serial_write(data[i]);` leaves off at -1.
  unfoldable pub echo : ℕ → (Tty → ℕ → ℕ) → ℕ → Tty → Tty
  echo zero text i t = t
  echo (suc off) text i t = echo off text (i + 1) (serial_write (text t i) t)

  -- The loop of tty_write_locked from `i` on, where `put` is tty_putchar_locked. Its two branches
  -- behind the control characters are one, since off is -1 there and counts as true.
  unfoldable pub write_loop : (ℕ → Tty → Option Tty) → ℕ → (Tty → ℕ → ℕ) → ℕ → ℕ → Tty → Option Tty
  write_loop put zero text n i t = none
  write_loop put (suc f) text n i t =
      let next = λ (k : ℕ) (t' : Tty). write_loop put f text n (k + 1) t' in
      let escaped = put (text t i) t >>= λ t'. next i t' in
      let parsed = parsecontrol (suc f) (λ k. text t (i + k)) 0 t >>= λ (t', off).
      (let t'' = echo off text i t' in
        let k = i + off in
        let plain = put (text t'' k) t'' >>= λ t'. next k t' in
        let beyond = next k t'' in if ltb k n then plain else beyond) in
      if ltb i n then (if t.escapebuf_active then escaped else parsed) else some (tty_drawcursor t)

  -- `str[2]` with the character and a NUL.
  abbrev pub one_char : ℕ → ℕ → ℕ
  one_char c k = if k == 0 then c else 0

  -- The last lines of tty_putchar_locked.
  abbrev pub put_plain : ℕ → Tty × ℕ → Option Tty
  put_plain c (t, n) = some (tty_drawcursor (if n == 0 then draw c t else t))

  -- `depth` bounds the calls of tty_write_locked by tty_putchar_locked, `f` the rounds of each loop.
  unfoldable pub tty_putchar_locked : ℕ → ℕ → ℕ → Tty → Option Tty
  tty_putchar_locked zero f c t = none
  tty_putchar_locked (suc depth) f c s =
      let t = serial_write c s in
      let n = t.escapebuf_len in
      let buf = store (n + 1) 0 (store n c t.escapebuf) in
      let added = record t { escapebuf = buf; escapebuf_len = n + 1 } in
      let parsed = parseescape palette stack f buf added >>= λ (t', _). some (tty_drawcursor t') in
      let flush =
        write_loop (tty_putchar_locked depth f) f (λ t' k. t'.escapebuf k) n 0
          (record t { escapebuf_active = false })
        >>= λ t'. some (record t' { escapebuf_len = 0 }) in
      let plain = parsecontrol f (one_char c) 0 t >>= λ r. put_plain c r in
      if t.escapebuf_active then (if ltb n 63 then parsed else flush) else plain

  unfoldable pub tty_write : ℕ → ℕ → (ℕ → ℕ) → ℕ → Tty → Option Tty
  tty_write depth f text n t = write_loop (tty_putchar_locked depth f) f (λ _ k. text k) n 0 t

  unfoldable pub tty_puts : ℕ → ℕ → (ℕ → ℕ) → Tty → Option (Tty × ℕ)
  tty_puts depth f text t =
      strlen f 0 text >>= λ len. tty_write depth f text len t >>= λ t'. some (t', len)
