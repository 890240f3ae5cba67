-- ===== src/Tty/Backward.antt =====
-- Where cursor backward leaves the cursor.
use pzos.Base.{ℕ, zero, suc, ◌+◌, ◌-◌, ◌*◌, ◌%◌, ◌^◌, ◌≤◌, ◌<◌, ◌≡◌, refl, inl, inr, some, ap, ◌∙◌}
use pzos.Base.{ltb, leb, ◌==◌, arith, Bool-cases, false, true}
use pzos.Tty.Screen.{Tty}
use pzos.Tty.Colors.{extend, int_lt}
use pzos.Tty.Escape.{cursor_backward}
use pzos.Tty.Cursor.{IsInside, IsAt, place, moved, extend-small}

abbrev one_line_less : ℕ → Tty → ℕ
one_line_less num t = (num + 2 ^ 32 - t.width % 2 ^ 32) % 2 ^ 32

negative :
    (c w n : ℕ)
    → c < w
    → w < 2 ^ 30
    → n < w
    → 0 < n
    → (int_lt (c % 2 ^ 32) ((n + 2 ^ 32 - w % 2 ^ 32) % 2 ^ 32) ≡ false)
      × ((c + 2 ^ 64 - extend ((n + 2 ^ 32 - w % 2 ^ 32) % 2 ^ 32)) % 2 ^ 64 ≡ c + w - n)
negative c w n cw ws nw pos_n = (ground arith, ground arith)

int_lt-small : (c n : ℕ) → c < 2 ^ 30 → n < 2 ^ 31 → int_lt (c % 2 ^ 32) n ≡ ltb c n
int_lt-small c n ch h = ground arith

far_back :
    (w n : ℕ)
    → w < 2 ^ 30
    → n < 2 ^ 31
    → (2 ^ 64 - extend ((n + 2 ^ 32 - w % 2 ^ 32) % 2 ^ 32)) % 2 ^ 64 ≡ (w + 2 ^ 64 - n) % 2 ^ 64
far_back w n ws ns = ground arith

line_above : (r w : ℕ) → 0 < r → (r - 1) * w + w ≡ r * w
line_above zero w h = absurd (omega arith)
line_above (suc r) w h = grind arith

-- What the loop does: `num` is more than the cells before the cursor in its line, and there is a line
-- above.
module _ (f num : ℕ) (t : Tty) (i : IsInside t) (small : num < 2 ^ 31) where
  stays :
      num ≤ t.col
      → (t' : Tty) × (cursor_backward (suc f) num t ≡ some t') × IsAt (place t - num) t t'
  unfolding cursor_backward
  stays le = (
    moved t.row (t.col - num) t,
    ground (arith, int_lt-small t.col num, extend-small num),
    record { same = refl; inside = ground arith; at = omega arith },
  )

  goes_up :
      t.col < num
      → 0 < t.row
      → cursor_backward (suc f) num t
        ≡ cursor_backward f (one_line_less num t) (moved (t.row - 1) t.col t)
  unfolding cursor_backward
  goes_up lt up = ground (arith, int_lt-small t.col num)

  ends_above :
      t.col < num
      → num < t.width
      → 0 < t.row
      → (t' : Tty) × (cursor_backward (suc (suc f)) num t ≡ some t') × IsAt (place t - num) t t'
  unfolding cursor_backward
  ends_above lt less up =
      let (go, off) = negative t.col t.width num i.col_lt i.width_lt less (omega arith) in
      (
        moved (t.row - 1) (t.col + t.width - num) t,
        ground (arith, int_lt-small t.col num, go, off),
        record {
          same = refl;
          inside = ground arith;
          at = omega (arith, line_above t.row t.width up);
        },
      )

not_at_top : (r w c n : ℕ) → n ≤ r * w + c → c < n → 0 < r
not_at_top zero w c n le lt = omega arith
not_at_top (suc r) w c n le lt = omega arith

-- The cursor goes back by `num` cells, if there are so many in front of it.
pub cursor_backward-IsAt :
    (f num : ℕ) (t : Tty)
    → IsInside t
    → num < 2 ^ 31
    → num ≤ place t
    → t.row + 1 < f
    → (t' : Tty) × (cursor_backward f num t ≡ some t') × IsAt (place t - num) t t'
cursor_backward-IsAt zero num t i small le fuel = absurd (omega arith)
cursor_backward-IsAt (suc zero) num t i small le fuel = absurd (omega arith)
cursor_backward-IsAt (suc (suc f)) num t i small le fuel = elim (Bool-cases (leb num t.col)) [
  | inl here ↦ stays (suc f) num t i small (ground arith)
  | inr above ↦
      let over : t.col < num = ground arith in
      let up = not_at_top t.row t.width t.col num le over in
      elim (Bool-cases (ltb num t.width)) [
        | inl less ↦ ends_above f num t i small over (ground arith) up
        | inr more ↦
            let down = moved (t.row - 1) t.col t in
            let all = line_above t.row t.width up in
            let fewer : one_line_less num t ≡ num - t.width = ground arith in
            let (t', e, a) =
              cursor_backward-IsAt (suc f) (num - t.width) down
                (record {
                  col_lt = i.col_lt;
                  row_lt = omega arith;
                  width_lt = i.width_lt;
                  height_lt = i.height_lt;
                })
                (omega arith) (ground arith) (omega arith) in
            (
              t',
              goes_up (suc f) num t i small over up
                  ∙ (ap (λ k. cursor_backward (suc f) k down) fewer ∙ e),
              record { same = a.same; inside = a.inside; at = a.at ∙ ground arith },
            )
      ]
]

first_line :
    (f num : ℕ) (t : Tty)
    → IsInside t
    → num < 2 ^ 31
    → t.col < num
    → (t.row == 0) ≡ true
    → cursor_backward (suc f) num t
      ≡ some (moved 0 (((t.row + 1) * t.width + 2 ^ 64 - num) % 2 ^ 64) t)
unfolding cursor_backward
first_line f num t i small lt top =
    let r : t.row ≡ 0 = ground arith in
    ground (arith, int_lt-small t.col num, far_back t.width num i.width_lt small)

one_back : (r : ℕ) → 0 < r → r - 1 + 1 ≡ r
one_back r h = omega arith

line_below : (r w : ℕ) → (r + 1) * w ≡ r * w + w
line_below r w = grind arith

-- With fewer cells in front of it than it is to go back, the cursor does not stop at the first cell of
-- the screen: it ends in the first line, in the column (row + 1) * width - num modulo 2 ^ 64, which is
-- off the screen where num is above (row + 1) * width.
pub cursor_backward-top :
    (f num : ℕ) (t : Tty)
    → IsInside t
    → num < 2 ^ 31
    → place t < num
    → t.row + 1 < f
    → cursor_backward f num t ≡ some (moved 0 (((t.row + 1) * t.width + 2 ^ 64 - num) % 2 ^ 64) t)
cursor_backward-top zero num t i small le fuel = absurd (omega arith)
cursor_backward-top (suc f) num t i small le fuel = elim (Bool-cases (t.row == 0)) [
  | inl top ↦ first_line f num t i small (ground arith) top
  | inr more ↦
      let up : 0 < t.row = ground arith in
      let down = moved (t.row - 1) t.col t in
      let all = line_above t.row t.width up in
      let wide : t.width ≤ num = omega arith in
      let fewer : one_line_less num t ≡ num - t.width = omega (arith, i.width_lt) in
      let rest =
        cursor_backward-top f (num - t.width) down
          (record {
            col_lt = i.col_lt;
            row_lt = omega arith;
            width_lt = i.width_lt;
            height_lt = i.height_lt;
          })
          (omega arith) (omega arith) (omega arith) in
      let same : (t.row - 1 + 1) * t.width + 2 ^ 64 - (num - t.width)
          ≡ (t.row + 1) * t.width + 2 ^ 64 - num =
        rw (one_back t.row up) (omega (arith, line_below t.row t.width)) in
      goes_up f num t i small (omega arith) up
      ∙ (ap (λ k. cursor_backward f k down) fewer
          ∙ (rest ∙ ap (λ c. some (moved 0 (c % 2 ^ 64) t)) same))
]
