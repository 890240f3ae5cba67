-- ===== src/Kbd/Sequences.antt =====
-- Scancode sequences of whole keys, and the keys that are down.
use pzos.Base.{ℕ, ◌+◌, ◌<◌, ◌≡◌, ◌≢◌, refl, ap, ◌∙◌, arith, true, false, Bool, not}
use pzos.Base.{List, [], ◌∷◌, ◌++◌, get_or-set_self, get_or-set_ne, append_assoc}
use pzos.Base.{Option, none, some, ◌==◌, if◌then◌else◌}
use pzos.Kbd.{
  Kbd, Keystroke, ScanState, state_normal, stroke, emit, guarded, parse, parse_key, kbd_isr,
  kbd_is_down,
}
use pzos.Kbd.Tables.{normal_map, extended_map}
use pzos.Kbd.Layout.{guarded-normal-lt}
use pzos.Kbd.Strokes.{IsValid, count, contents, stroke_of, emit-IsValid, emit-append}

-- The bytes of a list, one interrupt each.
unfoldable pub feed : List ℕ → Kbd → Option Kbd
feed [] s = some s
feed (c ∷ cs) s = elim (kbd_isr c s) [ none ↦ none | some (t, sent) ↦ feed cs t ]

-- A scancode that is neither an answer of the controller nor a prefix.
abbrev pub IsPlain : ℕ → Type 0
IsPlain c = (c ≢ 0xfa) × (c ≢ 0xfe) × (c ≢ 0xe0) × (c ≢ 0xf0) × (c ≢ 0xe1)

-- After a complete key exactly that key's state is set: down, or up if the break flag was set.
pub kbd_is_down-emit :
    (key k : ℕ) (s : Kbd)
    → IsValid s
    → key < 256
    → kbd_is_down k (emit key s) ≡ (if key == k then not s.current_state.break else kbd_is_down k s)
unfolding emit kbd_is_down
kbd_is_down-emit key k s v small = ground (
  arith,
  get_or-set_self s.keystates key (not s.current_state.break) false,
  get_or-set_ne s.keystates key k (not s.current_state.break) false,
)

module _ (c : ℕ) (plain : IsPlain c) (s : Kbd) (on : s.active ≡ true) where
  isr_plain :
      s.current_state.extended ≡ false
      → s.current_state.twobyte ≡ false
      → kbd_isr c s ≡ some (emit (guarded normal_map c) s, [])
  unfolding kbd_isr parse parse_key
  isr_plain e t = ground arith

isr_break :
    (s : Kbd)
    → s.active ≡ true
    → kbd_isr 0xf0 s
      ≡ some (record s { current_state = record s.current_state { break = true } }, [])
unfolding kbd_isr parse
isr_break s on = ground arith

active-emit : (key : ℕ) (s : Kbd) → (emit key s).active ≡ s.active
unfolding emit
active-emit key s = refl

normal-emit : (key : ℕ) (s : Kbd) → (emit key s).current_state ≡ state_normal
unfolding emit
normal-emit key s = refl

count-emit : (key : ℕ) (s : Kbd) → IsValid s → count s < 255 → count (emit key s) ≡ count s + 1
unfolding emit
count-emit key s v room = omega arith

abbrev breaking : Kbd → Kbd
breaking s = record s { current_state = record s.current_state { break = true } }

breaking-IsValid : {s : Kbd} → IsValid s → IsValid (breaking s)
breaking-IsValid v = omega arith

is_down-breaking : (k : ℕ) (s : Kbd) → kbd_is_down k (breaking s) ≡ kbd_is_down k s
unfolding kbd_is_down
is_down-breaking k s = refl

-- The same key completed twice, the second time as a release.
module _ (key : ℕ) (s : Kbd) (v : IsValid s) (ready : s.current_state ≡ state_normal) where
  both_contents :
      count s < 254
      → contents (emit key (breaking (emit key s)))
        ≡ contents s ++ (stroke_of key s ∷ stroke_of key (breaking (emit key s)) ∷ [])
  unfolding emit
  both_contents room =
      let more = emit-IsValid key v in
      emit-append key (breaking (emit key s)) (breaking-IsValid more)
        (omega (arith, count-emit key s v))
      ∙ ap (λ l. l ++ (stroke_of key (breaking (emit key s)) ∷ []))
          (emit-append key s v (omega arith))
      ∙ append_assoc (contents s) (stroke_of key s ∷ [])
          (stroke_of key (breaking (emit key s)) ∷ [])

  both_down :
      (k : ℕ)
      → key < 256
      → kbd_is_down k (emit key (breaking (emit key s)))
        ≡ (if key == k then false else kbd_is_down k s)
  both_down k small = ground (
    arith,
    kbd_is_down-emit key k s v small,
    kbd_is_down-emit key k (breaking (emit key s)) (breaking-IsValid (emit-IsValid key v)) small,
    is_down-breaking k (emit key s),
  )

module _ (c : ℕ) (plain : IsPlain c) (s : Kbd) (v : IsValid s) (on : s.active ≡ true)
    (ready : s.current_state ≡ state_normal) where
  abbrev key_of : ℕ
  key_of = guarded normal_map c

  abbrev held : Kbd
  held = emit key_of s

  feed_both : feed (c ∷ 0xf0 ∷ c ∷ []) s ≡ some (emit key_of (breaking held))
  unfolding feed
  feed_both = ground (
    arith,
    isr_plain c plain s on (ap (λ x. x.extended) ready) (ap (λ x. x.twobyte) ready),
    active-emit key_of s,
    normal-emit key_of s,
    isr_break held (active-emit key_of s ∙ on),
    isr_plain c plain (breaking held) (active-emit key_of s ∙ on)
        (ap (λ x. x.extended) (normal-emit key_of s)) (ap (λ x. x.twobyte) (normal-emit key_of s)),
  )

  -- A key without a prefix is pressed and released, in a driver that waits for a new sequence and has
  -- room for two keystrokes: the driver adds two keystrokes of that key, the second with the flag
  -- Released and the first without, the key is up afterwards and every other key is as it was, and the
  -- driver waits for a new sequence again.
  pub press_release :
      count s < 254
      → (t : Kbd) × (p r : Keystroke) × (feed (c ∷ 0xf0 ∷ c ∷ []) s ≡ some t)
        × (contents t ≡ contents s ++ (p ∷ r ∷ []))
        × (p.code ≡ guarded normal_map c)
        × (r.code ≡ guarded normal_map c)
        × (p.flags.released ≡ false)
        × (r.flags.released ≡ true)
        × ((k : ℕ)
            → kbd_is_down k t ≡ (if guarded normal_map c == k then false else kbd_is_down k s))
        × (t.current_state ≡ state_normal)
  press_release room = (
    emit key_of (breaking held),
    stroke_of key_of s,
    stroke_of key_of (breaking held),
    feed_both,
    both_contents key_of s v ready room,
    unfold stroke in refl,
    unfold stroke in refl,
    unfold stroke in ap (λ x. x.break) ready,
    unfold stroke in refl,
    λ k. both_down key_of s v ready k (guarded-normal-lt c),
    normal-emit key_of (breaking held),
  )

-- Behind the prefix of Print Screen.
abbrev pub extended_state : Bool → ScanState
extended_state b = record { extended = true; break = b; digraph = true; twobyte = false }

module _ (s : Kbd) (on : s.active ≡ true) (ready : s.current_state ≡ state_normal) where
  -- Print Screen: the four bytes of its press give one keystroke, and the six of its release one.
  pub print_screen :
      (feed (0xe0 ∷ 0x12 ∷ 0xe0 ∷ 0x7c ∷ []) s
        ≡ some (emit 0xae (record s { current_state = extended_state false })))
      × (feed (0xe0 ∷ 0xf0 ∷ 0x7c ∷ 0xe0 ∷ 0xf0 ∷ 0x12 ∷ []) s
          ≡ some (emit 0xae (record s { current_state = extended_state true })))
  unfolding feed kbd_isr parse parse_key extended_map
  print_screen = (ground arith, ground arith)

  -- Pause: of the three bytes behind each prefix only the last counts.
  pub pause :
      s.prev ≡ 0xffff
      → feed (0xe1 ∷ 0x14 ∷ 0x77 ∷ []) s
        ≡ some (emit 0xb0 (record s { current_state = record state_normal { twobyte = true } }))
  unfolding feed kbd_isr parse parse_key extended_map
  pause first = ground arith
