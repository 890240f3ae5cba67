-- ===== src/Kbd/Queue.antt =====
-- kernel/src/kbd.c, kbd_isr: what a byte does to the queue of keystrokes, the keys and the sequence.
use pzos.Base.{ℕ, ◌≡◌, Bool, not, ◌&&◌, ◌||◌}
use pzos.Base.{[], ◌∷◌, ◌++◌, set, get_or}
use pzos.Base.{◌==◌, if◌then◌else◌}
use pzos.Kbd.{Kbd, ScanState, state_normal, guarded}
use pzos.Kbd.Tables.{normal_map, extended_map}
use pzos.Kbd.Strokes.{contents, stroke_of}

-- The driver takes the byte for a scancode.
abbrev pub is_scancode : ℕ → Kbd → Bool
is_scancode c s = s.active && not (c == 0xfa || c == 0xfe)

abbrev pub is_prefix : ℕ → Bool
is_prefix c = c == 0xe0 || c == 0xf0 || c == 0xe1

-- The first half of Print Screen, which is 0xe0 0x12 or, released, 0xe0 0xf0 0x7c.
abbrev pub is_half : ℕ → Kbd → Bool
is_half c s = s.current_state.extended && (c == 0x12 || c == 0x7c)

-- The byte ends the sequence of a key.
abbrev pub completes : ℕ → Kbd → Bool
completes c s =
    is_scancode c s
    && (not (is_prefix c)
        && (not (is_half c s && not s.current_state.digraph)
            && not (s.current_state.twobyte && s.prev == 0xffff)))

-- Its key.
abbrev pub key_of : ℕ → Kbd → ℕ
key_of c s =
    if s.current_state.twobyte
    then get_or extended_map c 0
    else guarded (if s.current_state.extended then extended_map else normal_map) c

-- The sequence behind a byte that does not end it.
abbrev pub longer : ℕ → Kbd → ScanState
longer c s =
    if is_scancode c s
    then record {
      extended = s.current_state.extended || c == 0xe0;
      break = s.current_state.break || c == 0xf0;
      digraph = s.current_state.digraph || is_half c s;
      twobyte = s.current_state.twobyte || c == 0xe1;
    }
    else s.current_state

-- What the byte `c` makes of `s`.
pub record Takes (c : ℕ) (s t : Kbd) : Type 0 where
  pub queue :
      contents t
      ≡ (if completes c s then contents s ++ (stroke_of (key_of c s) s ∷ []) else contents s)
  pub keys : t.keystates ≡ (
      if completes c s
      then set s.keystates (key_of c s) (not s.current_state.break)
      else s.keystates)
  pub sequence : t.current_state ≡ (if completes c s then state_normal else longer c s)
