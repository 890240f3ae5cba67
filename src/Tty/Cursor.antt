-- ===== src/Tty/Cursor.antt =====
-- Where the commands that move the cursor leave it.
use pzos.Base.{
  ℕ, zero, suc, ◌+◌, ◌-◌, ◌*◌, ◌%◌, ◌^◌, ◌≤◌, ◌<◌, ◌≡◌, refl, inl, inr, some, min, sym, ap, ◌∙◌,
}
use pzos.Base.{leb, ◌==◌, arith, Bool-cases}
use pzos.Tty.Screen.{Tty}
use pzos.Tty.Colors.{extend}
use pzos.Tty.Escape.{wrap_forward, cursor_forward, cursor_down, cursor_up, cursor_column, Args}

-- The cursor is on the screen, whose size is that of an int.
pub record IsInside (t : Tty) : Type 0 where
  pub col_lt : t.col < t.width
  pub row_lt : t.row < t.height
  pub width_lt : t.width < 2 ^ 30
  pub height_lt : t.height < 2 ^ 30

-- The cells in front of the cursor.
abbrev pub place : Tty → ℕ
place t = t.row * t.width + t.col

abbrev pub moved : ℕ → ℕ → Tty → Tty
moved row col t = record t { row = row; col = col }

-- `t'` is `t` but for its cursor, which is on the screen at the place `p`.
pub record IsAt (p : ℕ) (t t' : Tty) : Type 0 where
  pub same : t' ≡ moved t'.row t'.col t
  pub inside : IsInside t'
  pub at : place t' ≡ p

last_cell :
    (r w h c : ℕ) → r + 1 ≡ h → 0 < w → w ≤ c → r * w + (w - 1) ≡ min (r * w + c) (h * w - 1)
last_cell r w h c e p le = let e' : h ≡ r + 1 = sym e in rw e' (grind arith)

on_screen : (r w h c : ℕ) → r < h → c < w → r * w + c ≡ min (r * w + c) (h * w - 1)
on_screen r w h c rl cl = grind arith

next_line : (r w c : ℕ) → w ≤ c → (r + 1) * w + (c - w) ≡ r * w + c
next_line r w c le = grind arith

pub wrap_forward-IsAt :
    (f : ℕ) (t : Tty)
    → t.row < t.height
    → 0 < t.width
    → t.width < 2 ^ 30
    → t.height < 2 ^ 30
    → t.height - t.row ≤ f
    → (t' : Tty) × (wrap_forward f t ≡ some t') × IsAt (min (place t) (t.height * t.width - 1)) t t'
unfolding wrap_forward
wrap_forward-IsAt zero t r w w' h' fuel = absurd (omega arith)
wrap_forward-IsAt (suc f) t r w w' h' fuel = elim (Bool-cases (leb t.width t.col)) [
  | inl over ↦ elim (Bool-cases (t.row == t.height - 1)) [
    | inl last ↦ (
      moved t.row (t.width - 1) t,
      ground arith,
      record {
        same = refl;
        inside = ground arith;
        at = last_cell t.row t.width t.height t.col (ground arith) w (ground arith);
      },
    )
    | inr more ↦
        let down = moved (t.row + 1) (t.col - t.width) t in
        let (t', e, i) = wrap_forward-IsAt f down (ground arith) w w' h' (ground arith) in
        (
          t',
          ground (arith, e),
          record {
            same = i.same;
            inside = i.inside;
            at =
                i.at
                ∙ ap (λ p. min p (t.height * t.width - 1))
                    (next_line t.row t.width t.col (ground arith));
          },
        )
  ]
  | inr fits ↦ (
    t,
    rw fits refl,
    record {
      same = refl;
      inside = ground arith;
      at = on_screen t.row t.width t.height t.col r (ground arith);
    },
  )
]

pub extend-small : (n : ℕ) → n < 2 ^ 31 → extend n ≡ n
extend-small n h = ground arith

extend_small : (c n : ℕ) → c < 2 ^ 30 → n < 2 ^ 31 → (c + extend n) % 2 ^ 64 ≡ c + n
extend_small c n ch h = omega (arith, extend-small n h)

-- The cursor goes forward by `num` cells, and stops at the last cell of the screen.
pub cursor_forward-IsAt :
    (f num : ℕ) (t : Tty)
    → IsInside t
    → num < 2 ^ 31
    → t.height ≤ f
    → (t' : Tty) × (cursor_forward f num t ≡ some t')
      × IsAt (min (place t + num) (t.height * t.width - 1)) t t'
unfolding cursor_forward
cursor_forward-IsAt f num t i small fuel =
    let start = moved t.row (t.col + num) t in
    let (t', e, a) =
      wrap_forward-IsAt f start i.row_lt (omega arith) i.width_lt i.height_lt (omega arith) in
    let begin : cursor_forward f num t ≡ wrap_forward f start =
      ap (λ c. wrap_forward f (moved t.row c t)) (extend_small t.col num (omega arith) small) in
    (
      t',
      begin ∙ e,
      record {
        same = a.same;
        inside = a.inside;
        at = a.at ∙ ap (λ p. min p (t.height * t.width - 1)) (omega arith);
      },
    )

-- The other movements keep the cursor on the screen, for every pattern of an int.
pub cursor_down-IsInside : (num : ℕ) (t : Tty) → IsInside t → IsInside (cursor_down num t)
unfolding cursor_down
cursor_down-IsInside num t i = ground arith

pub cursor_up-IsInside : (num : ℕ) (t : Tty) → IsInside t → IsInside (cursor_up num t)
unfolding cursor_up
cursor_up-IsInside num t i = ground arith

pub cursor_column-IsInside : (a : Args) (t : Tty) → IsInside t → IsInside (cursor_column a t)
unfolding cursor_column
cursor_column-IsInside a t i = ground arith

-- Column 0 is the last one.
pub cursor_column-zero :
    (a : Args) (t : Tty)
    → IsInside t
    → 0 < a.count
    → a.args 0 ≡ 0
    → (cursor_column a t).col ≡ t.width - 1
unfolding cursor_column
cursor_column-zero a t i some_arg e = ground arith
