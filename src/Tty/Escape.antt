-- ===== src/Tty/Escape.antt =====
-- kernel/src/tty.c, parseescape: the arguments of an escape sequence and its commands. A string is a
-- function from indices to characters, a loop over it has fuel, and `none` means that it ran out.
use pzos.Base.{
  ℕ, zero, suc, ◌+◌, ◌-◌, ◌*◌, ◌%◌, ◌^◌, min, true, false, not, ◌&&◌, Option, none, some,
}
use pzos.Base.{ltb, leb, ◌==◌, if◌then◌else◌}
use pzos.Memory.{Bytes}
use pzos.Strings.{strlen}
use pzos.Tty.Colors.{extend, int_lt, from_to, renditions}
use pzos.Tty.Screen.{Tty, tty_clearline}

-- The state of the loop over the arguments. `count` is arg_count + 1, since arg_count starts at -1.
pub record Args : Type 0 where
  pub args : ℕ → ℕ
  pub count : ℕ

-- Where the loop ends: at the end of the string, at a seventeenth argument, or at a command with `i`
-- behind it. There arg_count has been increased, and is the number of arguments.
pub data Parsed : Type 0 where
  incomplete : ℕ → Parsed
  give_up : Parsed
  command : ℕ → ℕ → Args → Parsed

-- `case '0' ... '9'`
abbrev pub add_digit : ℕ → Args → Args
add_digit c a =
    let n = if a.count == 0 then 1 else a.count in
    record {
      args = λ k. if k == n - 1 then (a.args (n - 1) * 10 + (c - b'0')) % 2 ^ 32 else a.args k;
      count = n;
    }

abbrev pub next_arg : Args → Args
next_arg a = record { args = λ k. if k == a.count then 0 else a.args k; count = a.count + 1 }

unfoldable pub parse_args : ℕ → (ℕ → ℕ) → ℕ → Args → Option Parsed
parse_args zero s i a = none
parse_args (suc f) s i a =
    let c = s i in
    let digit = parse_args f s (i + 1) (add_digit c a) in
    let semicolon = parse_args f s (i + 1) (next_arg a) in
    if c == 0
    then some (incomplete (i + 1))
    else if from_to b'0' b'9' c
    then digit
    else if c == b';'
    then (if ltb a.count 16 then semicolon else some give_up)
    else some (command c (i + 1) a)

-- `strncpy(escapebuf, s, sizeof(escapebuf))` of libc/string/str.c, where the NUL of `s` is at `end`: it
-- writes one NUL behind what it copies, and none behind 64 characters that are all of `s`. For a longer
-- `s` that NUL is behind the array.
abbrev pub keep_sequence : (ℕ → ℕ) → ℕ → Bytes → Bytes
keep_sequence s end buf j =
    let len = min end 64 in
    if ltb j len then s j else if j == len && not (end == 64) then 0 else buf j

abbrev pub size : ℕ → ℕ
size n = n % 2 ^ 64

abbrev pub minus_one : ℕ → ℕ
minus_one n = size (n + 2 ^ 64 - 1)

-- `while (tty_col >= tty_width)`
unfoldable pub wrap_forward : ℕ → Tty → Option Tty
wrap_forward zero t = none
wrap_forward (suc f) t =
    let next = wrap_forward f (record t { col = t.col - t.width; row = t.row + 1 }) in
    if leb t.width t.col
    then (if t.row == minus_one t.height then some (record t { col = minus_one t.width }) else next)
    else some t

unfoldable pub cursor_forward : ℕ → ℕ → Tty → Option Tty
cursor_forward f num t = wrap_forward f (record t { col = size (t.col + extend num) })

-- `while ((int)tty_col < num)`, then `tty_col -= num`. `num -= tty_width` is an int again.
unfoldable pub cursor_backward : ℕ → ℕ → Tty → Option Tty
cursor_backward zero num t = none
cursor_backward (suc f) num t =
    let less = (num + 2 ^ 32 - t.width % 2 ^ 32) % 2 ^ 32 in
    let next = cursor_backward f less (record t { row = t.row - 1 }) in
    if int_lt (t.col % 2 ^ 32) num
    then (if t.row == 0 then some (record t { col = size (2 ^ 64 - extend less) }) else next)
    else some (record t { col = size (t.col + 2 ^ 64 - extend num) })

unfoldable pub cursor_down : ℕ → Tty → Tty
cursor_down num t =
    let row = size (t.row + extend num) in
    record t { row = if leb t.height row then minus_one t.height else row }

unfoldable pub cursor_up : ℕ → Tty → Tty
cursor_up num t = record t { row = if ltb t.row (extend num) then 0 else t.row - extend num }

-- `args[0] - 1` is an int, and is compared with the width as a size_t.
unfoldable pub cursor_column : Args → Tty → Tty
cursor_column a t =
    let col = if ltb 0 a.count then (a.args 0 + 2 ^ 32 - 1) % 2 ^ 32 else 0 in
    record t {
      col = if leb t.width (extend col) then extend (minus_one t.width % 2 ^ 32) else extend col;
    }

-- The number of a command, 1 if there is no argument.
abbrev pub amount : Args → ℕ
amount a = if ltb 0 a.count then a.args 0 else 1

module _ (palette : ℕ → ℕ) where
  unfoldable pub run_command : ℕ → ℕ → Args → Tty → Option Tty
  run_command f cmd a t =
      if cmd == b'C'
      then cursor_forward f (amount a) t
      else if cmd == b'D'
      then cursor_backward f (amount a) t
      else if cmd == b'E'
      then some (cursor_down (amount a) t)
      else if cmd == b'F'
      then some (cursor_up (amount a) t)
      else if cmd == b'G'
      then some (cursor_column a t)
      else if cmd == b'K'
      then some (tty_clearline t.row t)
      else if cmd == b'm'
      then some (record t { color = renditions palette a.count a.count a.args 0 t.color })
      else some t

  -- `stack` is what lies behind the array of arguments. The result is the state and the number of
  -- characters.
  module _ (stack : ℕ → ℕ) where
    abbrev pub no_args : Args
    no_args = record { args = λ k. if ltb k 16 then 0 else stack k; count = 0 }

    unfoldable pub finish : ℕ → (ℕ → ℕ) → Tty → Option Parsed → Option (Tty × ℕ)
    finish f s t none = none
    finish f s t (some (incomplete i)) =
        let kept = record t { escapebuf = keep_sequence s (i - 1) t.escapebuf } in
        if t.escapebuf_active then some (t, 0) else elim (strlen f 0 kept.escapebuf) [
          | none ↦ none
          | some n ↦ some (record kept { escapebuf_len = n; escapebuf_active = true }, n)
        ]
    finish f s t (some give_up) = some (t, 0)
    finish f s t (some (command c i a)) =
        elim (run_command f c a (record t { escapebuf_active = false; escapebuf_len = 0 })) [
          | none ↦ none
          | some t' ↦ some (t', i)
        ]

    unfoldable pub parseescape : ℕ → (ℕ → ℕ) → Tty → Option (Tty × ℕ)
    parseescape f s t =
        if s 0 == 0
        then some (record t { escapebuf_active = true }, 0)
        else if s 0 == b'['
        then finish f s t (parse_args f s 1 no_args)
        else some (t, 0)
