-- ===== src/Kbd.antt =====
-- kernel/src/kbd.c: the keyboard driver. Its state is two rings of 256 entries with indices that
-- wrap at 256, the keys that are down, and the flags of a scancode sequence that is not complete.
pub mod Tables
pub mod Ring
pub mod Strokes
pub mod Queue
pub mod Sequences
pub mod Layout
pub mod Sending
mod Tests
use pzos.Base.{ℕ, zero, suc, ◌+◌, ◌-◌, ◌%◌, Bool, true, false, not, ◌&&◌, ◌||◌, Option, none, some}
use pzos.Base.{List, [], ◌∷◌, ltb, leb, ◌==◌, if◌then◌else◌, length, get_elem?, get_or, set}
use pzos.Kbd.Tables.{normal_map, extended_map, codepoint_map, shifted_map}
use pzos.Kbd.Tables.{key_lctrl, key_rctrl, key_lshift, key_rshift, key_lalt, key_ralt, key_invalid}

-- `enum KeyFlags`, a Boolean for each of its bits.
pub record KeyFlags : Type 0 where
  pub released : Bool
  pub control : Bool
  pub shift : Bool
  pub alt : Bool
  pub invalid : Bool

pub record Keystroke : Type 0 where
  pub code : ℕ
  pub flags : KeyFlags
  pub codepoint : ℕ

-- `state_t`, a Boolean for each of its bits.
pub record ScanState : Type 0 where
  pub extended : Bool
  pub break : Bool
  pub digraph : Bool
  pub twobyte : Bool

abbrev pub state_normal : ScanState
state_normal = record { extended = false; break = false; digraph = false; twobyte = false }

pub record Kbd : Type 0 where
  pub rbuf : List Keystroke
  pub rbuf_ridx : ℕ
  pub rbuf_widx : ℕ
  pub wbuf : List ℕ
  pub wbuf_ridx : ℕ
  pub wbuf_widx : ℕ
  pub retry_cnt : ℕ
  pub active : Bool
  pub keystates : List Bool
  pub current_state : ScanState
  pub prev : ℕ

-- The static contents of `rbuf` before any key.
abbrev pub blank_key : Keystroke
blank_key = record {
  code = 0;
  flags = record { released = false; control = false; shift = false; alt = false; invalid = false };
  codepoint = 0;
}

abbrev pub invalid_key : Keystroke
invalid_key = record {
  code = key_invalid;
  flags = record { released = false; control = false; shift = false; alt = false; invalid = true };
  codepoint = 0;
}

-- An index is a uint8_t.
abbrev pub next_idx : ℕ → ℕ
next_idx i = (i + 1) % 256

-- The new state, and the bytes handed to ps2_send_kbd.
abbrev pub Sent : Type 0
Sent = Kbd × List ℕ

-- The controller acknowledges the last byte.
pub ack : Kbd → Sent
ack s =
    let r = next_idx s.wbuf_ridx in
    (record s { wbuf_ridx = r }, if r == s.wbuf_widx then [] else get_or s.wbuf r 0 ∷ [])

-- The controller asks for the last byte again.
pub resend : Kbd → Sent
resend s =
    if ltb s.retry_cnt 3
    then (record s { retry_cnt = s.retry_cnt + 1 }, get_or s.wbuf s.wbuf_ridx 0 ∷ [])
    else (record s { retry_cnt = 0 }, [])

pub mapped : List ℕ → ℕ → ℕ
mapped table key =
    if ltb key (length table) && not (get_or table key 0 == 0) then get_or table key 0 else 0

abbrev pub down : List Bool → ℕ → Bool
down keys key = get_or keys key false

pub stroke : ℕ → Bool → List Bool → Keystroke
unfolding mapped
stroke key released keys =
    let shift = down keys key_lshift || down keys key_rshift in
    record {
      code = key;
      flags = record {
        released = released;
        control = down keys key_lctrl || down keys key_rctrl;
        shift = shift;
        alt = down keys key_lalt || down keys key_ralt;
        invalid = false;
      };
      codepoint = if shift then mapped shifted_map key else mapped codepoint_map key;
    }

-- A key is complete: its state, its keystroke, and back to the beginning of a sequence.
pub emit : ℕ → Kbd → Kbd
emit key s =
    let released = s.current_state.break in
    let keys = set s.keystates key (not released) in
    record s {
      keystates = keys;
      rbuf = set s.rbuf s.rbuf_widx (stroke key released keys);
      rbuf_widx = next_idx s.rbuf_widx;
      current_state = state_normal;
    }

abbrev pub guarded : List ℕ → ℕ → ℕ
guarded table scancode =
    if leb (length table) scancode then key_invalid else get_or table scancode 0

-- A byte that is no prefix. `none` is the read of `extended_map` out of its range, by the branch for
-- two bytes, which makes no test.
pub parse_key : ℕ → Kbd → Option Kbd
parse_key scancode s =
    if s.current_state.extended
      && (scancode == 0x12 || scancode == 0x7c)
      && not s.current_state.digraph
    then some (record s { current_state = record s.current_state { digraph = true } })
    else if s.current_state.twobyte
    then (if s.prev == 0xffff
        then some (record s { prev = scancode })
        else elim (get_elem? extended_map scancode) [
          | none ↦ none
          | some key ↦ some (emit key (record s { prev = 0xffff }))
        ])
    else if s.current_state.extended
    then some (emit (guarded extended_map scancode) s)
    else some (emit (guarded normal_map scancode) s)

pub parse : ℕ → Kbd → Option Kbd
parse scancode s =
    if scancode == 0xe0
    then some (record s { current_state = record s.current_state { extended = true } })
    else if scancode == 0xf0
    then some (record s { current_state = record s.current_state { break = true } })
    else if scancode == 0xe1
    then some (record s { current_state = record s.current_state { twobyte = true } })
    else parse_key scancode s

pub kbd_isr : ℕ → Kbd → Option Sent
kbd_isr scancode s =
    if scancode == 0xfa
    then some (ack s)
    else if scancode == 0xfe
    then some (resend s)
    else if not s.active
    then some (s, [])
    else (elim (parse scancode s) [ none ↦ none | some s' ↦ some (s', []) ])

pub kbd_read : Kbd → Kbd × Keystroke
kbd_read s =
    if s.rbuf_widx == s.rbuf_ridx
    then (s, invalid_key)
    else (record s { rbuf_ridx = next_idx s.rbuf_ridx }, get_or s.rbuf s.rbuf_ridx blank_key)

pub kbd_is_down : ℕ → Kbd → Bool
kbd_is_down key s = down s.keystates key

pub kbd_write : ℕ → Kbd → Sent
kbd_write c s = (
  record s { wbuf = set s.wbuf s.wbuf_widx c; wbuf_widx = next_idx s.wbuf_widx },
  if s.wbuf_widx == s.wbuf_ridx then c ∷ [] else [],
)
