-- ===== src/Tty/Commands.antt =====
-- The control characters and the commands leave the cursor on the screen, and the loop over the arguments ends.
use pzos.Base.{ℕ, zero, suc, ◌+◌, ◌-◌, ◌%◌, ◌≤◌, ◌<◌, ◌≡◌, ◌≢◌, refl, inl, inr, some}
use pzos.Base.{ltb, leb, ◌==◌, arith, Bool-cases, false, ap, Option}
use pzos.Tty.Colors.{from_to, extend, renditions}
use pzos.Tty.Screen.{Tty, tty_drawcursor, tty_clearline}
use pzos.Tty.Escape.{
  Args, Parsed, incomplete, give_up, command, add_digit, next_arg, amount, parse_args,
  cursor_forward, run_command, size, cursor_down, cursor_up, cursor_column,
}
use pzos.Tty.Write.{next_row, newline, tab, backspace_column, carriage_return, advance}
use pzos.Tty.Cursor.{
  IsInside, wrap_forward-IsAt, cursor_down-IsInside, cursor_up-IsInside, cursor_column-IsInside,
}
use pzos.Tty.Drawing.{Text, text, tty_scroll-text, tty_drawcursor-text, tty_clearline-text}

pub IsInside-text : (t t' : Tty) → text t' ≡ text t → IsInside t → IsInside t'
IsInside-text t t' e i = ground (
  arith,
  ap (λ (x : Text). x.row) e,
  ap (λ (x : Text). x.col) e,
  ap (λ (x : Text). x.width) e,
  ap (λ (x : Text). x.height) e,
)

pub tty_drawcursor-IsInside : (t : Tty) → IsInside t → IsInside (tty_drawcursor t)
tty_drawcursor-IsInside t i = IsInside-text t (tty_drawcursor t) (tty_drawcursor-text t) i

next_row-IsInside : (t : Tty) → IsInside t → IsInside (next_row t)
unfolding next_row
next_row-IsInside t i =
    let down = record t { row = size (t.row + 1) } in
    let e = tty_scroll-text down in
    ground (
      arith,
      ap (λ (x : Text). x.row) e,
      ap (λ (x : Text). x.col) e,
      ap (λ (x : Text). x.width) e,
      ap (λ (x : Text). x.height) e,
    )

next_row_start : (t : Tty) → IsInside t → IsInside (next_row (record t { col = 0 }))
next_row_start t i = next_row-IsInside (record t { col = 0 }) (ground arith)

pub advance-IsInside : (t : Tty) → IsInside t → IsInside (advance t)
advance-IsInside t i = ground (arith, next_row_start t i)

pub newline-IsInside : (t : Tty) → IsInside t → IsInside (newline t)
unfolding newline
newline-IsInside t i =
    let n = next_row-IsInside t i in
    tty_drawcursor-IsInside (record (next_row t) { col = 0 }) (ground arith)

pub tab-IsInside : (t : Tty) → IsInside t → IsInside (tab t)
unfolding tab
tab-IsInside t i = elim (Bool-cases (leb t.width (size (t.col + (8 - t.col % 8))))) [
  | inl over ↦ rw over (tty_drawcursor-IsInside _ (next_row_start t i))
  | inr fits ↦
      rw fits
        (tty_drawcursor-IsInside (record t { col = size (t.col + (8 - t.col % 8)) }) (ground arith))
]

pub backspace_column-IsInside : (t : Tty) → IsInside t → IsInside (backspace_column t)
unfolding backspace_column
backspace_column-IsInside t i = ground arith

pub carriage_return-IsInside : (t : Tty) → IsInside t → IsInside (carriage_return t)
unfolding carriage_return
carriage_return-IsInside t i = tty_drawcursor-IsInside (record t { col = 0 }) (ground arith)

-- The outcome is there, and in it the cursor is on the screen.
abbrev pub EndsInside : Option Tty → Type 0
EndsInside o = (t' : Tty) × (o ≡ some t') × IsInside t'

cursor_forward-IsInside :
    (f num : ℕ) (t : Tty) → IsInside t → t.height ≤ f → EndsInside (cursor_forward f num t)
unfolding cursor_forward
cursor_forward-IsInside f num t i fuel =
    let start = record t { col = size (t.col + extend num) } in
    let (t', e, a) =
      wrap_forward-IsAt f start i.row_lt (omega (arith, i.col_lt)) i.width_lt i.height_lt
        (omega arith) in
    (t', e, a.inside)

module _ (palette : ℕ → ℕ) where
  pub run_command-IsInside :
      (f cmd : ℕ) (a : Args) (t : Tty)
      → cmd ≢ b'D'
      → IsInside t
      → t.height ≤ f
      → EndsInside (run_command palette f cmd a t)
  unfolding run_command
  run_command-IsInside f cmd a t other i fuel =
      let n = amount a in
      let not_back : (cmd == b'D') ≡ false = ground arith in
      elim (Bool-cases (cmd == b'C')) [
        | inl e ↦ rw (run_command, e) (cursor_forward-IsInside f n t i fuel)
        | inr c ↦ elim (Bool-cases (cmd == b'E')) [
          | inl e ↦
              rw (run_command, c, not_back, e) (cursor_down n t, refl, cursor_down-IsInside n t i)
          | inr d ↦ elim (Bool-cases (cmd == b'F')) [
            | inl e ↦
                rw (run_command, c, not_back, d, e) (cursor_up n t, refl, cursor_up-IsInside n t i)
            | inr u ↦ elim (Bool-cases (cmd == b'G')) [
              | inl e ↦
                  rw (run_command, c, not_back, d, u, e)
                    (cursor_column a t, refl, cursor_column-IsInside a t i)
              | inr g ↦ elim (Bool-cases (cmd == b'K')) [
                | inl e ↦
                    rw (run_command, c, not_back, d, u, g, e)
                      (
                        tty_clearline t.row t,
                        refl,
                        IsInside-text t (tty_clearline t.row t) (tty_clearline-text t.row t) i,
                      )
                | inr k ↦ elim (Bool-cases (cmd == b'm')) [
                  | inl e ↦
                      rw (run_command, c, not_back, d, u, g, k, e)
                        (
                          record t { color = renditions palette a.count a.count a.args 0 t.color },
                          refl,
                          ground arith,
                        )
                  | inr m ↦ rw (run_command, c, not_back, d, u, g, k, m) (t, refl, i)
                ]
              ]
            ]
          ]
        ]
      ]

abbrev pub NotBack : Parsed → Type 0
NotBack (incomplete i) = Unit {0}
NotBack give_up = Unit {0}
NotBack (command c i a) = c ≢ b'D'

pub inside_string : (s : ℕ → ℕ) (i n : ℕ) → i ≤ n → s n ≡ 0 → (s i == 0) ≡ false → i < n
inside_string s i n le end char = elim (Bool-cases (i == n)) [
  | inl e ↦ let same : i ≡ n = ground arith in absurd (ground (arith, ap s same))
  | inr d ↦ ground arith
]

-- The loop over the arguments ends at the end of the string or before it.
pub parse_args-ends :
    (f : ℕ) (s : ℕ → ℕ) (i n : ℕ) (a : Args)
    → i ≤ n
    → s n ≡ 0
    → n < i + f
    → ((k : ℕ) → k < n → s k ≢ b'D')
    → (p : Parsed) × (parse_args f s i a ≡ some p) × NotBack p
unfolding parse_args
parse_args-ends zero s i n a le end fuel other = absurd (omega arith)
parse_args-ends (suc f) s i n a le end fuel other = elim (Bool-cases (s i == 0)) [
  | inl e ↦ (incomplete (i + 1), rw (parse_args, e) refl, tt)
  | inr char ↦
      let more : i < n = inside_string s i n le end char in
      elim (Bool-cases (from_to b'0' b'9' (s i))) [
        | inl e ↦
            rw (parse_args, char, e)
              (parse_args-ends f s (i + 1) n (add_digit (s i) a) (omega arith) end (omega arith)
                other)
        | inr d ↦ elim (Bool-cases (s i == b';')) [
          | inl e ↦ elim (Bool-cases (ltb a.count 16)) [
            | inl room ↦
                rw (parse_args, char, d, e, room)
                  (parse_args-ends f s (i + 1) n (next_arg a) (omega arith) end (omega arith) other)
            | inr full ↦ rw (parse_args, char, d, e, full) (give_up, refl, tt)
          ]
          | inr c ↦ rw (parse_args, char, d, c) (command (s i) (i + 1) a, refl, other i more)
        ]
      ]
]
