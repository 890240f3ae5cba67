-- ===== src/Kbd/Tests.antt =====
-- Runs of the keyboard driver, and its theorems at concrete states.
use pzos.Base.{ℕ, ◌-◌, ◌≡◌, ◌≢◌, refl, arith, true, false, Bool, ◌⊎◌, inl, ◌&&◌}
use pzos.Base.{List, [], ◌∷◌, ◌++◌, length, replicate, Option, none, some, leb, ◌==◌, if◌then◌else◌}
use pzos.Kbd.{
  Kbd, Keystroke, state_normal, blank_key, invalid_key, stroke, mapped, emit, guarded, ack, parse,
  parse_key, kbd_isr, kbd_read, kbd_write, kbd_is_down,
}
use pzos.Kbd.Tables.{normal_map, codepoint_map, shifted_map}
use pzos.Kbd.Strokes.{
  IsValid, contents, stroke_of, kbd_isr-some, kbd_read_lem, emit-append, emit-overflow,
}
use pzos.Kbd.Sequences.{feed, extended_state, kbd_is_down-emit, press_release, print_screen, pause}
use pzos.Kbd.Layout.{is_letter, normal_map_injective, shift_capital}
use pzos.Kbd.Sending.{Event, write, acked, run, step, unacked, first_of, run_in_order, resend_four}

-- The driver after kbd_init, with no byte on its way.
abbrev idle : Kbd
idle = record {
  rbuf = replicate 256 blank_key;
  rbuf_ridx = 0;
  rbuf_widx = 0;
  wbuf = replicate 256 0;
  wbuf_ridx = 0;
  wbuf_widx = 0;
  retry_cnt = 0;
  active = true;
  keystates = replicate 256 false;
  current_state = state_normal;
  prev = 0xffff;
}

-- Every entry but one of the ring of keystrokes is taken.
abbrev full : Kbd
full = record idle { rbuf_widx = 255 }

idle-IsValid : IsValid idle
idle-IsValid = omega arith

full-IsValid : IsValid full
full-IsValid = omega arith

-- Shift, then the key A: a capital letter.
abbrev is_capital_a : Option Kbd → Bool
is_capital_a none = false
is_capital_a (some s) = elim (contents s) [
  | [] ↦ false
  | shift ∷ rest ↦ elim rest [ [] ↦ false | k ∷ more ↦ k.codepoint == b'A' ]
]

shift_a : is_capital_a (feed (0x12 ∷ 0x1c ∷ []) idle) ≡ true
unfolding feed kbd_isr parse parse_key emit stroke normal_map shifted_map
shift_a = refl

-- The byte of A, behind a break prefix.
abbrev releasing : Kbd
releasing = record idle { current_state = record state_normal { break = true } }

kbd_isr-some_test : kbd_isr 0x1c idle ≢ none
kbd_isr-some_test = kbd_isr-some 0x1c idle (inl refl)

kbd_read_lem_test :
    ((contents full ≡ []) × (kbd_read full ≡ (full, invalid_key)))
    ⊎ (contents full ≡ (kbd_read full).1 ∷ contents (kbd_read full).0)
kbd_read_lem_test = kbd_read_lem full full-IsValid

emit-append_test : contents (emit 0x41 idle) ≡ stroke_of 0x41 idle ∷ []
emit-append_test = emit-append 0x41 idle idle-IsValid (omega arith)

emit-overflow_test : contents (emit 0x41 full) ≡ []
emit-overflow_test = emit-overflow 0x41 full full-IsValid refl

key_down_test : kbd_is_down 0x41 (emit 0x41 idle) ≡ true
key_down_test = kbd_is_down-emit 0x41 0x41 idle idle-IsValid (omega arith)

press_release_example :
    (t : Kbd) × (p r : Keystroke) × (feed (0x1c ∷ 0xf0 ∷ 0x1c ∷ []) idle ≡ some t)
    × (contents t ≡ p ∷ r ∷ [])
    × (p.code ≡ guarded normal_map 0x1c)
    × (r.code ≡ guarded normal_map 0x1c)
    × (p.flags.released ≡ false)
    × (r.flags.released ≡ true)
    × ((k : ℕ)
        → kbd_is_down k t ≡ (if guarded normal_map 0x1c == k then false else kbd_is_down k idle))
    × (t.current_state ≡ state_normal)
press_release_example = press_release 0x1c (omega arith) idle idle-IsValid refl refl (omega arith)

print_screen_test :
    (feed (0xe0 ∷ 0x12 ∷ 0xe0 ∷ 0x7c ∷ []) idle
      ≡ some (emit 0xae (record idle { current_state = extended_state false })))
    × (feed (0xe0 ∷ 0xf0 ∷ 0x7c ∷ 0xe0 ∷ 0xf0 ∷ 0x12 ∷ []) idle
        ≡ some (emit 0xae (record idle { current_state = extended_state true })))
print_screen_test = print_screen idle refl refl

pause_test :
    feed (0xe1 ∷ 0x14 ∷ 0x77 ∷ []) idle
    ≡ some (emit 0xb0 (record idle { current_state = record state_normal { twobyte = true } }))
pause_test = pause idle refl refl refl

normal_map_test : ◌≡◌ {A = ℕ} 0x1c 0x1c
unfolding normal_map
normal_map_test = normal_map_injective 0x1c 0x1c refl (omega arith)

shift_test :
    ((is_letter (mapped codepoint_map 0x41) ≡ true)
      → mapped shifted_map 0x41 ≡ mapped codepoint_map 0x41 - 32)
    × ((is_letter (mapped codepoint_map 0x41) ≡ false)
        → (leb b'A' (mapped shifted_map 0x41) && leb (mapped shifted_map 0x41) b'Z') ≡ false)
shift_test = shift_capital 0x41

abbrev start_up : List Event
start_up = write 0xf0 ∷ write 0x02 ∷ acked ∷ write 0xf4 ∷ acked ∷ []

run_in_order_example :
    (done : List ℕ) × (length done ≡ 2)
    × (done ++ unacked (run start_up idle).0 ≡ 0xf0 ∷ 0x02 ∷ 0xf4 ∷ [])
    × ((run start_up idle).1 ≡ done ++ first_of (unacked (run start_up idle).0))
unfolding step kbd_write ack
run_in_order_example = run_in_order start_up idle idle-IsValid refl (omega arith)

resend_four_test :
    (t u w : Kbd) × (kbd_isr 0xfe idle ≡ some (t, 0 ∷ []))
    × (kbd_isr 0xfe t ≡ some (u, 0 ∷ []))
    × (kbd_isr 0xfe u ≡ some (w, 0 ∷ []))
    × (kbd_isr 0xfe w ≡ some (idle, []))
resend_four_test = resend_four idle refl
