-- ===== src/Shell/Recall.antt =====
-- What Up and Down make of the line, and what Enter makes of an empty one.
use pzos.Base.{ℕ, ◌+◌, ◌-◌, ◌*◌, ◌≤◌, ◌<◌, ◌≡◌, ◌≢◌, ◌⊎◌, inl, inr, refl, ◌∙◌, arith, sym}
use pzos.Base.{some, true, false, ltb, ◌==◌, ◌∷◌, []}
use pzos.Memory.{Bytes, memcpy, store}
use pzos.Memory.Copy.{copied, memcpy-copied, IsForward}
use pzos.Strings.{strcpy}
use pzos.Strings.Length.{IsString, strlen-length}
use pzos.Strings.Copy.{strcpy-copied}
use pzos.Shell.Session.{
  Session, prompt, text, entry_size, no_index, before, string_at, characters, show_entry,
  key_up_pressed, key_down_pressed, clearline, send, set_memory, eval, remember, is_new, enter,
  new_line, hist_size, to_end, char, leave_history,
}

-- The line and the history are apart in memory.
abbrev pub Apart : ℕ → ℕ → Type 0
Apart buf history = (buf + entry_size ≤ history) ⊎ (history + entry_size * hist_size ≤ buf)

module _ (buf history literal tty_width : ℕ) (apart : Apart buf history) where
  abbrev h : ℕ → ℕ
  h i = history + entry_size * i

  show_entry-line :
      (f i n : ℕ) (s : Session)
      → IsString (h i) n s.line.memory
      → n < f
      → show_entry buf history literal tty_width f i s
        ≡ some (
            send
              (prompt ∷ text (characters n (h i) s.line.memory) ∷ [])
              (record (clearline buf history literal tty_width s) {
                line = record { memory = memcpy buf (h i) n s.line.memory; bufpos = n; buflen = n };
              }))
  unfolding show_entry string_at
  show_entry-line f i n s str fuel =
      rw (show_entry, string_at, strlen-length f n (h i) s.line.memory str fuel) refl

  -- A copy between the line and an entry.
  to_entry :
      (i n : ℕ) (m : Bytes) (j : ℕ)
      → i < hist_size
      → n < entry_size
      → memcpy (h i) buf n m j ≡ copied (h i) buf n m j
  to_entry i n m j lt small =
      memcpy-copied (h i) buf n m j
        (elim apart [ inl a ↦ inr (omega arith) | inr b ↦ inl (omega arith) ])

  from_entry :
      (i n : ℕ) (m : Bytes) (j : ℕ)
      → i < hist_size
      → n < entry_size
      → memcpy buf (h i) n m j ≡ copied buf (h i) n m j
  from_entry i n m j lt small =
      memcpy-copied buf (h i) n m j
        (elim apart [ inl a ↦ inl (omega arith) | inr b ↦ inr (omega arith) ])

  module _ (s : Session) (n : ℕ) (some_entry : 0 < s.history_cnt) (few : s.history_cnt < hist_size)
      (typing : s.history_idx ≡ no_index) (short : s.line.buflen < entry_size)
      (chars : (i : ℕ) → i < s.line.buflen → s.line.memory (buf + i) ≢ 0)
      (cleared : s.line.memory (h s.history_cnt + s.line.buflen) ≡ 0) (fits : n < entry_size)
      (last : IsString (h (s.history_cnt - 1)) n s.line.memory) where
    abbrev m1 : Bytes
    m1 = memcpy (h s.history_cnt) buf s.line.buflen s.line.memory

    abbrev m2 : Bytes
    m2 = memcpy buf (h (s.history_cnt - 1)) n m1

    last_kept : IsString (h (s.history_cnt - 1)) n m1
    last_kept = (
      λ i lt. ground (
        arith,
        to_entry s.history_cnt s.line.buflen s.line.memory (h (s.history_cnt - 1) + i) few short,
        last.0 i lt,
      ),
      ground (
        arith,
        to_entry s.history_cnt s.line.buflen s.line.memory (h (s.history_cnt - 1) + n) few short,
        last.1,
      ),
    )

    -- What was typed is in the entry behind the last.
    saved_char : (i : ℕ) → i ≤ s.line.buflen → m2 (h s.history_cnt + i) ≡ m1 (h s.history_cnt + i)
    saved_char i le =
        from_entry (s.history_cnt - 1) n m1 (h s.history_cnt + i) (omega arith) fits
        ∙ (elim apart [ inl a ↦ ground arith | inr b ↦ ground arith ])

    typed_char : (i : ℕ) → i < s.line.buflen → m1 (h s.history_cnt + i) ≡ s.line.memory (buf + i)
    typed_char i lt =
        to_entry s.history_cnt s.line.buflen s.line.memory (h s.history_cnt + i) few short
        ∙ ground arith

    typed_end : m1 (h s.history_cnt + s.line.buflen) ≡ 0
    typed_end =
        to_entry s.history_cnt s.line.buflen s.line.memory (h s.history_cnt + s.line.buflen) few
          short
        ∙ ground (arith, cleared)

    typed_kept : IsString (h s.history_cnt) s.line.buflen m2
    typed_kept = (
      λ i lt zero. chars i lt (sym (saved_char i (omega arith) ∙ typed_char i lt) ∙ zero),
      saved_char s.line.buflen (omega arith) ∙ typed_end,
    )

    abbrev saved : Session
    saved = record (set_memory m1 s) { history_idx = before s.history_cnt }

    abbrev shown : Session
    shown =
        send (prompt ∷ text (characters n (h (s.history_cnt - 1)) m1) ∷ [])
          (record (clearline buf history literal tty_width saved) {
            line = record { memory = m2; bufpos = n; buflen = n };
          })

    up : (f : ℕ) → n < f → key_up_pressed buf history literal tty_width f s ≡ some shown
    unfolding key_up_pressed
    up f fuel =
        let nonempty : (s.history_cnt == 0) ≡ false = ground arith in
        let fresh : (s.history_idx == no_index) ≡ true = ground arith in
        let line = show_entry-line f (s.history_cnt - 1) n saved last_kept fuel in
        rw (key_up_pressed, nonempty, fresh) (rw nonempty at line)

    abbrev m3 : Bytes
    m3 = memcpy buf (h s.history_cnt) s.line.buflen m2

    abbrev back_again : Session
    back_again = leave_history (
        send (prompt ∷ text (characters s.line.buflen (h s.history_cnt) m2) ∷ [])
          (record (clearline buf history literal tty_width shown) {
            line = record { memory = m3; bufpos = s.line.buflen; buflen = s.line.buflen };
          }))

    down :
        (f : ℕ)
        → s.line.buflen < f
        → key_down_pressed buf history literal tty_width f shown ≡ some back_again
    unfolding key_down_pressed clearline
    down f fuel =
        let nonempty : (s.history_cnt == 0) ≡ false = ground arith in
        let inside : (before s.history_cnt == no_index) ≡ false = ground arith in
        let at_last : (before s.history_cnt == before s.history_cnt) ≡ true = ground arith in
        let line = show_entry-line f s.history_cnt s.line.buflen shown typed_kept fuel in
        rw (key_down_pressed, nonempty) (ground (arith, line, inside, at_last))

    shown_index : shown.history_idx ≡ s.history_cnt - 1
    unfolding clearline
    shown_index = let nonempty : (s.history_cnt == 0) ≡ false = ground arith in rw nonempty refl

    -- The characters of the last entry, behind the two copies.
    shown_char : (i : ℕ) → i < n → m2 (buf + i) ≡ s.line.memory (h (s.history_cnt - 1) + i)
    shown_char i lt =
        from_entry (s.history_cnt - 1) n m1 (buf + i) (omega arith) fits
        ∙ (ground arith
            ∙ (to_entry s.history_cnt s.line.buflen s.line.memory (h (s.history_cnt - 1) + i) few
                  short
                ∙ ground arith))

    -- While a line is typed (history_idx is -1), with from 1 to 63 entries in the history, Up makes the last
    -- entry the line, with the cursor at its end, and Down behind it gives back the line as it was typed,
    -- with the cursor at its end, and leaves the history. The typed line has less than 1024 characters
    -- and no NUL in it, and the place behind the last entry has a NUL where that line ends; the last entry
    -- is a string of less than 1024 characters; the line and the history do not overlap; the fuel is
    -- above both lengths.
    pub key_down-key_up :
        (f : ℕ)
        → s.line.buflen < f
        → n < f
        → (t u : Session) × (key_up_pressed buf history literal tty_width f s ≡ some t)
          × (key_down_pressed buf history literal tty_width f t ≡ some u)
          × (t.line.buflen ≡ n)
          × (t.line.bufpos ≡ n)
          × (t.history_idx ≡ s.history_cnt - 1)
          × ((i : ℕ)
              → i < n
              → t.line.memory (buf + i)
                ≡ s.line.memory (history + entry_size * (s.history_cnt - 1) + i))
          × (u.line.buflen ≡ s.line.buflen)
          × (u.line.bufpos ≡ s.line.buflen)
          × (u.history_idx ≡ no_index)
          × ((i : ℕ) → i < s.line.buflen → u.line.memory (buf + i) ≡ s.line.memory (buf + i))
    key_down-key_up f fuel fuel' = (
      shown,
      back_again,
      up f fuel',
      down f fuel,
      refl,
      refl,
      shown_index,
      shown_char,
      refl,
      refl,
      refl,
      λ i lt.
          from_entry s.history_cnt s.line.buflen m2 (buf + i) few short
          ∙ (ground arith ∙ (saved_char i (omega arith) ∙ typed_char i lt)),
    )

  is_new-typing :
      (f : ℕ) (s : Session)
      → s.line.memory buf ≢ 0
      → s.history_idx ≡ no_index
      → s.history_cnt < hist_size
      → is_new buf history literal f s ≡ some true
  unfolding is_new
  is_new-typing f s old fresh few =
      let chars : (s.line.memory buf == 0) ≡ false = ground arith in ground arith

  remember-empty :
      (f : ℕ) (s : Session) (u : Bytes)
      → s.line.buflen ≡ 0
      → s.history_cnt < hist_size - 1
      → strcpy f (h s.history_cnt) buf (store buf 0 s.line.memory) ≡ some u
      → remember buf history literal f s
        ≡ some (set_memory u (record s { history_cnt = s.history_cnt + 1 }))
  unfolding remember
  remember-empty f s u empty few copy =
      let room : ltb s.history_cnt (hist_size - 1) ≡ true = ground arith in
      let place : buf + s.line.buflen ≡ buf = omega arith in rw (remember, room, place, copy) refl

  eval-empty : (f : ℕ) (s : Session) → s.line.buflen ≡ 0 → eval buf history literal f s ≡ some s
  unfolding eval
  eval-empty f s empty =
      let none_typed : (s.line.buflen == 0) ≡ true = ground arith in rw (eval, none_typed) refl

  -- Enter on an empty line whose buffer still holds the line before, with history_idx -1 and less than 63
  -- entries in the history: an empty entry goes into the history. The line and the history do not overlap.
  pub enter-empty :
      (f : ℕ) (s : Session)
      → s.line.buflen ≡ 0
      → s.line.memory buf ≢ 0
      → s.history_idx ≡ no_index
      → s.history_cnt < hist_size - 1
      → 0 < f
      → (t : Session) × (enter buf history literal f s ≡ some t)
        × (t.history_cnt ≡ s.history_cnt + 1)
        × (t.line.memory (h s.history_cnt) ≡ 0)
  unfolding enter
  enter-empty f s empty old fresh room fuel =
      let m = store buf 0 s.line.memory in
      let str : IsString buf 0 m = (λ i lt. absurd (omega arith), ground arith) in
      let way : IsForward (h s.history_cnt) buf 1 = elim apart [
        | inl a ↦ inr (omega arith)
        | inr b ↦ inl (omega arith)
      ] in
      let (u, copy, same) = strcpy-copied f 0 (h s.history_cnt) buf m str way fuel in
      let zero : u (h s.history_cnt) ≡ 0 = same (h s.history_cnt) ∙ ground (arith, str.1) in
      let t = send (to_end buf history literal s ∷ char b'\n' ∷ []) s in
      let v = set_memory u (record t { history_cnt = s.history_cnt + 1 }) in
      let new = is_new-typing f t old fresh (omega arith) in
      let kept = remember-empty f t u empty room copy in
      let done = eval-empty f v empty in
      (new_line buf history literal v, rw (enter, new, kept, done) refl, refl, ground (arith, zero))
