-- ===== src/Kbd/Strokes.antt =====
-- The ring of keystrokes between the interrupt handler and kbd_read.
use pzos.Base.{ℕ, suc, ◌<◌, ◌≡◌, ◌≢◌, refl, arith, false, not}
use pzos.Base.{List, [], ◌∷◌, ◌++◌, length, set, length-set}
use pzos.Base.{
  none, some, ◌⊎◌, Option-cases, get_elem?, get_elem?-eq-get_or, ◌==◌, inl, inr, Bool-cases,
}
use pzos.Kbd.{
  Kbd, Keystroke, blank_key, invalid_key, next_idx, stroke, emit, ack, resend, parse, parse_key,
  guarded, kbd_isr, kbd_read,
}
use pzos.Kbd.Tables.{extended_map, normal_map}
use pzos.Kbd.Ring.{pending, window, window-set, window-pop}

pub record IsValid (s : Kbd) : Type 0 where
  pub rbuf_size : length s.rbuf ≡ 256
  pub wbuf_size : length s.wbuf ≡ 256
  pub keys_size : length s.keystates ≡ 256
  pub ridx_in : s.rbuf_ridx < 256
  pub widx_in : s.rbuf_widx < 256
  pub wr_in : s.wbuf_ridx < 256
  pub ww_in : s.wbuf_widx < 256

abbrev pub count : Kbd → ℕ
count s = pending s.rbuf_ridx s.rbuf_widx

-- The keystrokes that kbd_read has still to give, the oldest first.
abbrev pub contents : Kbd → List Keystroke
contents s = window blank_key s.rbuf s.rbuf_ridx (count s)

-- The keystroke of a complete key, in the state before it.
abbrev pub stroke_of : ℕ → Kbd → Keystroke
stroke_of key s = stroke key s.current_state.break (set s.keystates key (not s.current_state.break))

pub emit-IsValid : (key : ℕ) {s : Kbd} → IsValid s → IsValid (emit key s)
unfolding emit
emit-IsValid key {s} v = ground (
  arith,
  length-set s.keystates key (not s.current_state.break),
  length-set s.rbuf s.rbuf_widx (stroke_of key s),
)

parse_key-IsValid :
    (scancode : ℕ) {s t : Kbd} → IsValid s → parse_key scancode s ≡ some t → IsValid t
unfolding parse_key
parse_key-IsValid scancode {s} v h =
    let one = emit-IsValid (guarded normal_map scancode) v in
    let two = emit-IsValid (guarded extended_map scancode) v in
    elim (Option-cases (get_elem? extended_map scancode)) [
      | inl out ↦ ground (arith, out)
      | inr (key, e) ↦
          let three = emit-IsValid key {s = record s { prev = 0xffff }} (ground arith) in
          ground (arith, e)
    ]

parse-IsValid : (scancode : ℕ) {s t : Kbd} → IsValid s → parse scancode s ≡ some t → IsValid t
unfolding parse
parse-IsValid scancode {s} {t} v h = ground (arith, parse_key-IsValid scancode {s = s} {t = t} v)

-- The interrupt handler keeps the lengths of the arrays and the ranges of their indices, on every
-- branch.
pub kbd_isr-IsValid :
    (scancode : ℕ) (s t : Kbd) (sent : List ℕ)
    → IsValid s
    → kbd_isr scancode s ≡ some (t, sent)
    → IsValid t
unfolding kbd_isr ack resend
kbd_isr-IsValid scancode s t sent v h = elim (Option-cases (parse scancode s)) [
  | inl bad ↦ ground (arith, bad)
  | inr (u, e) ↦ ground (arith, e, parse-IsValid scancode {s = s} {t = u} v e)
]

extended_size : length extended_map ≡ 126
unfolding extended_map
extended_size = refl

-- The handler reads no table out of its range unless a sequence of two bytes is under way and the
-- byte is 126 or more.
pub kbd_isr-some :
    (scancode : ℕ) (s : Kbd)
    → (s.current_state.twobyte ≡ false) ⊎ (scancode < 126)
    → kbd_isr scancode s ≢ none
unfolding kbd_isr parse parse_key
kbd_isr-some scancode s h =
    ground (arith, extended_size, get_elem?-eq-get_or extended_map scancode 0)

-- kbd_read gives the oldest keystroke and keeps the others in order; with no keystroke pending it
-- says so and changes nothing.
pub kbd_read_lem :
    (s : Kbd)
    → IsValid s
    → ((contents s ≡ []) × (kbd_read s ≡ (s, invalid_key)))
      ⊎ (contents s ≡ (kbd_read s).1 ∷ contents (kbd_read s).0)
unfolding kbd_read
kbd_read_lem s v = elim (Bool-cases (s.rbuf_widx == s.rbuf_ridx)) [
  | inl same ↦ inl (ground arith, ground arith)
  | inr more ↦ inr (ground (arith, window-pop blank_key s.rbuf s.rbuf_ridx (count s)))
]

-- A complete key is added behind the pending ones, as long as these are fewer than 255.
pub emit-append :
    (key : ℕ) (s : Kbd)
    → IsValid s
    → count s < 255
    → contents (emit key s) ≡ contents s ++ (stroke_of key s ∷ [])
unfolding emit
emit-append key s v room =
    let grown : pending s.rbuf_ridx (next_idx s.rbuf_widx) ≡ suc (count s) = omega arith in
    rw grown (
      window-set blank_key s.rbuf (stroke_of key s) (count s) s.rbuf_ridx s.rbuf_widx v.rbuf_size
        v.ridx_in (omega arith) (omega arith))

-- With 255 keystrokes pending one more key loses them all, itself included.
pub emit-overflow : (key : ℕ) (s : Kbd) → IsValid s → count s ≡ 255 → contents (emit key s) ≡ []
unfolding emit
emit-overflow key s v full =
    let gone : pending s.rbuf_ridx (next_idx s.rbuf_widx) ≡ 0 = omega arith in rw gone refl
