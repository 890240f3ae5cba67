-- ===== src/Shell/Session.antt =====
-- kernel/src/main.c: eval, clearline and the loop of kmain on a keystroke. The line and the history are
-- in memory at `buf` and `history`; what goes to the terminal is a list. A loop over a string takes the
-- fuel `f`, and `none` means that it ran out.
use pzos.Base.{
  ℕ, zero, suc, ◌+◌, ◌-◌, ◌*◌, ◌/◌, ◌^◌, Bool, true, false, ◌&&◌, ◌||◌, not, Option, none, some,
}
use pzos.Base.{List, [], ◌∷◌, ◌++◌, ltb, leb, ◌==◌, if◌then◌else◌, replicate}
use pzos.Base.Int.{ℤ, pos, negsuc}
use pzos.Memory.{Bytes, store, memmove, memcpy}
use pzos.Strings.{strlen, strcpy, strcmp, strchr}
use pzos.Kbd.{Keystroke}
use pzos.Kbd.Tables.{key_enter, key_num_enter}
use pzos.Shell.{Line, insert, backspace, left, right}

abbrev pub hist_size : ℕ
hist_size = 64

abbrev pub entry_size : ℕ
entry_size = 1024

abbrev pub prompt_length : ℕ
prompt_length = 13

abbrev pub key_left : ℕ
key_left = 0x0e

abbrev pub key_down : ℕ
key_down = 0x0f

abbrev pub key_right : ℕ
key_right = 0x10

abbrev pub key_up : ℕ
key_up = 0x2f

abbrev pub key_backspace : ℕ
key_backspace = 0x8d

-- What is sent: a character, a string by its characters, one of the texts of the program, a movement of
-- the cursor by printf, or tty_clear.
pub data Output : Type 0 where
  char : ℕ → Output
  text : List ℕ → Output
  prompt : Output
  help : Output
  not_found : Output
  blank_row : Output
  previous_row : Output
  forward : ℕ → Output
  back : ℕ → Output
  clear : Output

-- history_idx is an int that is compared with a size_t: -1 is `no_index`.
abbrev pub no_index : ℕ
no_index = 2 ^ 64 - 1

abbrev pub before : ℕ → ℕ
before n = if n == 0 then no_index else n - 1

pub record Session : Type 0 where
  pub line : Line
  pub history_cnt : ℕ
  pub history_idx : ℕ
  pub sent : List Output

infixl 5 ◌>>=◌
abbrev pub ◌>>=◌ : {A B : Type 0} → Option A → (A → Option B) → Option B
none >>= f = none
some a >>= f = f a

abbrev pub send : List Output → Session → Session
send o s = record s { sent = s.sent ++ o }

abbrev pub set_memory : Bytes → Session → Session
set_memory m s = record s { line = record s.line { memory = m } }

abbrev pub leave_history : Session → Session
leave_history s = record s { history_idx = no_index }

abbrev pub is_positive : ℕ → Bool
is_positive i = ltb 0 i && ltb i (2 ^ 63)

-- The characters of a string, and `n` characters from `p` on.
unfoldable pub characters : ℕ → ℕ → Bytes → List ℕ
characters zero p m = []
characters (suc n) p m = m p ∷ characters n (p + 1) m

unfoldable pub string_at : ℕ → ℕ → Bytes → Option (List ℕ)
unfolding characters
string_at f p m = strlen f p m >>= λ n. some (characters n p m)

-- A string in the program, as memory at `p`.
abbrev pub with_string : ℕ → List ℕ → Bytes → Bytes
with_string p [] m = store p 0 m
with_string p (c ∷ cs) m = store p c (with_string (p + 1) cs m)

abbrev pub is_zero : ℤ → Bool
is_zero (pos zero) = true
is_zero (pos (suc n)) = false
is_zero (negsuc n) = false

module _ (buf history literal : ℕ) where
  abbrev pub entry : ℕ → ℕ
  entry i = history + entry_size * i

  -- `strcmp(buf, word) == 0`, with the word at `literal`.
  unfoldable pub is_command : ℕ → List ℕ → Bytes → Option Bool
  is_command f word m = strcmp f buf literal (with_string literal word m) >>= λ c. some (is_zero c)

  abbrev pub put_args : ℕ → Option ℕ → Session → Option Session
  put_args f none s = some s
  put_args f (some args) s = string_at f args s.line.memory >>= λ t. some (send (text t ∷ []) s)

  unfoldable pub run_command : ℕ → Option ℕ → Session → Option Session
  unfolding is_command string_at
  run_command f args s =
      is_command f (b'c' ∷ b'l' ∷ b'e' ∷ b'a' ∷ b'r' ∷ []) s.line.memory >>= λ is_clear.
      is_command f (b'h' ∷ b'e' ∷ b'l' ∷ b'p' ∷ []) s.line.memory >>= λ is_help.
      is_command f (b'e' ∷ b'c' ∷ b'h' ∷ b'o' ∷ []) s.line.memory >>= λ is_echo.
      (if is_clear
        then some (send (clear ∷ []) s)
        else if is_help
        then some (send (help ∷ []) s)
        else if is_echo
        then (put_args f args s >>= λ s'. some (send (char b'\n' ∷ []) s'))
        else (string_at f buf s.line.memory >>= λ t. some (send (text t ∷ not_found ∷ []) s)))

  -- `*args = 0; args++`
  abbrev pub split_line : Option ℕ → Session → Session × Option ℕ
  split_line none s = (s, none)
  split_line (some p) s = (set_memory (store p 0 s.line.memory) s, some (p + 1))

  abbrev pub keep_line : ℕ → Session → Option Bytes
  keep_line f s =
      if s.history_idx == before s.history_cnt
      then some s.line.memory
      else strcpy f (entry s.history_cnt) buf s.line.memory

  unfoldable pub eval : ℕ → Session → Option Session
  unfolding run_command
  eval f s =
      let full = keep_line f s >>= λ m.
      (let ended = store (buf + s.line.buflen) 0 m in
        strchr f buf b' ' ended >>= λ space.
        (let (s', args) = split_line space (set_memory ended s) in run_command f args s')) in
      if s.line.buflen == 0 then some s else full

  abbrev pub to_end : Session → Output
  to_end s = forward (s.line.buflen - s.line.bufpos)

  abbrev pub to_cursor : Session → Output
  to_cursor s = back (s.line.buflen - s.line.bufpos)

  -- The last lines of the case of Enter.
  abbrev pub new_line : Session → Session
  new_line s = send (prompt ∷ []) (record s {
    line = record { memory = store (entry s.history_cnt) 0 s.line.memory; bufpos = 0; buflen = 0 };
    history_idx = no_index;
  })

  -- The line goes into the history.
  unfoldable pub remember : ℕ → Session → Option Session
  remember f s =
      let m = s.line.memory in
      if ltb s.history_cnt (hist_size - 1)
      then (strcpy f (entry s.history_cnt) buf (store (buf + s.line.buflen) 0 m) >>= λ u.
          some (set_memory u (record s { history_cnt = s.history_cnt + 1 })))
      else (strcpy f (entry (hist_size - 2)) buf
            (memmove history (entry 1) (entry_size * (hist_size - 2)) m)
          >>= λ u. some (set_memory u s))

  -- `strcmp(history[history_cnt - 1], buf) != 0`, and the tests before it.
  unfoldable pub is_new : ℕ → Session → Option Bool
  is_new f s =
      let m = s.line.memory in
      if m buf == 0
      then some false
      else if s.history_cnt == 0
      then some true
      else if not (s.history_idx == before s.history_cnt)
      then some true
      else (strcmp f (entry (s.history_cnt - 1)) buf m >>= λ c. some (not (is_zero c)))

  unfoldable pub enter : ℕ → Session → Option Session
  enter f s =
      let t = send (to_end s ∷ char b'\n' ∷ []) s in
      is_new f t >>= λ new.
      (if new then remember f t else some t) >>= λ u. eval f u >>= λ v. some (new_line v)

  -- A printable character.
  unfoldable pub type_char : ℕ → Session → Session
  unfolding characters
  type_char c s =
      let t = record s { line = insert buf c s.line } in
      let l = t.line in
      if ltb s.line.bufpos s.line.buflen
      then send
          (char c
            ∷ text (characters (l.buflen - l.bufpos) (buf + l.bufpos) l.memory)
            ∷ to_cursor t
            ∷ [])
          t
      else send (char c ∷ []) t

  module _ (tty_width : ℕ) where
    unfoldable pub clearline : Session → Session
    clearline s =
        send
          (to_end s
            ∷ blank_row
            ∷ replicate ((s.line.buflen + prompt_length + 1) / tty_width) previous_row)
          s

    unfoldable pub delete_char : Session → Session
    unfolding clearline characters
    delete_char s =
        let t = clearline (record s { line = backspace buf s.line }) in
        let l = t.line in
        if s.line.bufpos == 0
        then s
        else send (prompt ∷ text (characters l.buflen buf l.memory) ∷ to_cursor t ∷ []) t

    -- The line becomes the entry `i` of the history.
    unfoldable pub show_entry : ℕ → ℕ → Session → Option Session
    unfolding clearline string_at
    show_entry f i s =
        let m = s.line.memory in
        string_at f (entry i) m >>= λ t. strlen f (entry i) m >>= λ n. some (
          send (prompt ∷ text t ∷ []) (record (clearline s) {
            line = record { memory = memcpy buf (entry i) n m; bufpos = n; buflen = n };
          }))

    unfoldable pub key_up_pressed : ℕ → Session → Option Session
    key_up_pressed f s =
        let l = s.line in
        let saved = record (set_memory (memcpy (entry s.history_cnt) buf l.buflen l.memory) s) {
          history_idx = before s.history_cnt;
        } in
        let older =
          if s.history_idx == no_index
          then saved
          else if is_positive s.history_idx
          then record s { history_idx = s.history_idx - 1 }
          else s in
        if s.history_cnt == 0 then some s else show_entry f older.history_idx older

    unfoldable pub key_down_pressed : ℕ → Session → Option Session
    key_down_pressed f s =
        let next = record s { history_idx = s.history_idx + 1 } in
        let last = show_entry f s.history_cnt s >>= λ t. some (leave_history t) in
        if s.history_cnt == 0 || s.history_idx == no_index
        then some s
        else if s.history_idx == before s.history_cnt
        then last
        else show_entry f next.history_idx next

    -- The body of the loop. A codepoint is a char, which is signed.
    unfoldable pub on_key : ℕ → Keystroke → Session → Option Session
    unfolding enter type_char delete_char key_up_pressed key_down_pressed
    on_key f key s =
        if key.flags.released
        then some s
        else if leb 0x20 key.codepoint && ltb key.codepoint 0x80
        then some (type_char key.codepoint s)
        else if key.code == key_enter || key.code == key_num_enter
        then enter f s
        else if key.code == key_backspace
        then some (delete_char s)
        else if key.code == key_left
        then some
            (if s.line.bufpos == 0 then s else send (back 1 ∷ []) (record s { line = left s.line }))
        else if key.code == key_right
        then some (
            if s.line.bufpos == s.line.buflen
            then s
            else send (forward 1 ∷ []) (record s { line = right s.line }))
        else if key.code == key_up
        then key_up_pressed f s
        else if key.code == key_down
        then key_down_pressed f s
        else some s
