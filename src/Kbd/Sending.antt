-- ===== src/Kbd/Sending.antt =====
-- The bytes to the keyboard: kbd_write, the acknowledgement 0xfa and the request to resend 0xfe.
use pzos.Base.{ℕ, suc, ◌-◌, ◌<◌, ◌≡◌, ◌≢◌, refl, sym, ap, ◌∙◌, arith}
use pzos.Base.{List, [], ◌∷◌, ◌++◌, length, get_or, length-set, append_assoc, append-nil}
use pzos.Base.{some, ◌==◌, inl, inr, Bool-cases}
use pzos.Kbd.{Kbd, next_idx, ack, resend, kbd_isr, kbd_write}
use pzos.Kbd.Ring.{pending, window, window-set, window-pop}
use pzos.Kbd.Strokes.{IsValid}

abbrev pub wcount : Kbd → ℕ
wcount s = pending s.wbuf_ridx s.wbuf_widx

-- The bytes that the keyboard has not acknowledged, the oldest first.
abbrev pub unacked : Kbd → List ℕ
unacked s = window 0 s.wbuf s.wbuf_ridx (wcount s)

abbrev pub first_of : List ℕ → List ℕ
first_of [] = []
first_of (x ∷ xs) = x ∷ []

pub data Event : Type 0 where
  write : ℕ → Event
  acked : Event

unfoldable pub step : Event → Kbd → Kbd × List ℕ
step (write c) s = kbd_write c s
step acked s = ack s

pub run : List Event → Kbd → Kbd × List ℕ
unfolding step
run [] s = (s, [])
run (e ∷ es) s = let (t, sent) = step e s in let (u, rest) = run es t in (u, sent ++ rest)

-- Room in the ring at each write, and a byte to acknowledge at each acknowledgement.
abbrev pub Allowed : Event → Kbd → Type 0
Allowed (write c) s = wcount s < 255
Allowed acked s = wcount s ≢ 0

abbrev pub AllAllowed : List Event → Kbd → Type 0
AllAllowed [] s = Unit {0}
AllAllowed (e ∷ es) s = Allowed e s × AllAllowed es (step e s).0

abbrev pub written : List Event → List ℕ
written [] = []
written (write c ∷ es) = c ∷ written es
written (acked ∷ es) = written es

abbrev pub acks : List Event → ℕ
acks [] = 0
acks (write c ∷ es) = acks es
acks (acked ∷ es) = suc (acks es)

step-IsValid : (e : Event) {s : Kbd} → IsValid s → IsValid (step e s).0
unfolding step kbd_write ack
step-IsValid (write c) {s} v = ground (arith, length-set s.wbuf s.wbuf_widx c)
step-IsValid acked v = ground arith

unacked-write :
    (c : ℕ) (s : Kbd)
    → IsValid s
    → wcount s < 255
    → unacked (kbd_write c s).0 ≡ unacked s ++ (c ∷ [])
unfolding kbd_write
unacked-write c s v room =
    let grown : pending s.wbuf_ridx (next_idx s.wbuf_widx) ≡ suc (wcount s) = omega arith in
    rw grown (
      window-set 0 s.wbuf c (wcount s) s.wbuf_ridx s.wbuf_widx v.wbuf_size v.wr_in (omega arith)
        (omega arith))

sent-write :
    (c : ℕ) (s : Kbd)
    → IsValid s
    → first_of (unacked s) ++ (kbd_write c s).1 ≡ first_of (unacked s ++ (c ∷ []))
unfolding kbd_write
sent-write c s v = elim (Bool-cases (s.wbuf_widx == s.wbuf_ridx)) [
  | inl same ↦ let none_left : wcount s ≡ 0 = ground arith in rw (none_left, same) refl
  | inr more ↦ rw (window-pop 0 s.wbuf s.wbuf_ridx (wcount s) (ground arith), more) refl
]

unacked-ack :
    (s : Kbd)
    → IsValid s
    → wcount s ≢ 0
    → unacked s ≡ get_or s.wbuf s.wbuf_ridx 0 ∷ unacked (ack s).0
unfolding ack
unacked-ack s v more =
    let fewer : wcount s - 1 ≡ pending (next_idx s.wbuf_ridx) s.wbuf_widx = omega arith in
    window-pop 0 s.wbuf s.wbuf_ridx (wcount s) more
    ∙ ap (λ n. get_or s.wbuf s.wbuf_ridx 0 ∷ window 0 s.wbuf (next_idx s.wbuf_ridx) n) fewer

sent-ack : (s : Kbd) → IsValid s → wcount s ≢ 0 → (ack s).1 ≡ first_of (unacked (ack s).0)
unfolding ack
sent-ack s v more = elim (Bool-cases (next_idx s.wbuf_ridx == s.wbuf_widx)) [
  | inl last ↦
      let none_left : pending (next_idx s.wbuf_ridx) s.wbuf_widx ≡ 0 = ground arith in
      rw (last, none_left) refl
  | inr other ↦
      rw
        (
          window-pop 0 s.wbuf (next_idx s.wbuf_ridx) (pending (next_idx s.wbuf_ridx) s.wbuf_widx)
              (ground arith),
          other,
        )
        refl
]

-- What a run of writes and acknowledgements has done.
pub record HasSent (es : List Event) (s t : Kbd) (sent : List ℕ) : Type 0 where
  pub done : List ℕ
  pub in_order : done ++ unacked t ≡ unacked s ++ written es
  pub one_ahead : first_of (unacked s) ++ sent ≡ done ++ first_of (unacked t)
  pub counted : length done ≡ acks es

run-HasSent :
    (es : List Event) (s : Kbd)
    → IsValid s
    → AllAllowed es s
    → HasSent es s (run es s).0 (run es s).1
unfolding run
run-HasSent [] s v a = record {
  done = [];
  in_order = simp append-nil;
  one_ahead = simp append-nil;
  counted = refl;
}
run-HasSent (write c ∷ es) s v (room, a) =
    let rest = run-HasSent es (step (write c) s).0 (step-IsValid (write c) v) a in
    record {
      done = rest.done;
      in_order =
          rest.in_order
          ∙ ap (λ l. l ++ written es) (unacked-write c s v room)
          ∙ append_assoc (unacked s) (c ∷ []) (written es);
      one_ahead =
          sym (append_assoc (first_of (unacked s)) (kbd_write c s).1 (run es (kbd_write c s).0).1)
          ∙ ap (λ l. l ++ (run es (kbd_write c s).0).1)
              (sent-write c s v ∙ ap first_of (sym (unacked-write c s v room)))
          ∙ rest.one_ahead;
      counted = rest.counted;
    }
run-HasSent (acked ∷ es) s v (more, a) =
    let rest = run-HasSent es (step acked s).0 (step-IsValid acked v) a in
    record {
      done = get_or s.wbuf s.wbuf_ridx 0 ∷ rest.done;
      in_order =
          ap (λ l. get_or s.wbuf s.wbuf_ridx 0 ∷ l) rest.in_order
          ∙ ap (λ l. l ++ written es) (sym (unacked-ack s v more));
      one_ahead =
          ap (λ l. first_of l ++ ((ack s).1 ++ (run es (ack s).0).1)) (unacked-ack s v more)
          ∙ ap (λ l. get_or s.wbuf s.wbuf_ridx 0 ∷ l)
              (ap (λ l. l ++ (run es (ack s).0).1) (sent-ack s v more) ∙ rest.one_ahead);
      counted = ap suc rest.counted;
    }

-- A driver with nothing to acknowledge takes writes and acknowledgements in any order, with room in
-- the ring at each write and a byte to acknowledge at each acknowledgement. Then the bytes that went
-- out are the ones acknowledged, as many as there were acknowledgements, and the one byte behind them
-- if there is one; with all that wait these are the bytes written, in their order.
pub run_in_order :
    (es : List Event) (s : Kbd)
    → IsValid s
    → wcount s ≡ 0
    → AllAllowed es s
    → (done : List ℕ) × (length done ≡ acks es)
      × (done ++ unacked (run es s).0 ≡ written es)
      × ((run es s).1 ≡ done ++ first_of (unacked (run es s).0))
run_in_order es s v idle a =
    let h = run-HasSent es s v a in
    let nothing : unacked s ≡ [] = rw idle refl in
    (
      h.done,
      h.counted,
      h.in_order ∙ ap (λ l. l ++ written es) nothing,
      ap (λ l. first_of l ++ (run es s).1) (sym nothing) ∙ h.one_ahead,
    )

pub isr_ack : (s : Kbd) → kbd_isr 0xfa s ≡ some (ack s)
unfolding kbd_isr
isr_ack s = refl

-- Four requests to resend, from no retries on: the handler sends the byte three times and gives up at
-- the fourth. It is then in the state that it began in, so the byte still waits to be acknowledged.
pub resend_four :
    (s : Kbd)
    → s.retry_cnt ≡ 0
    → let b = get_or s.wbuf s.wbuf_ridx 0 in
      (t u w : Kbd) × (kbd_isr 0xfe s ≡ some (t, b ∷ []))
      × (kbd_isr 0xfe t ≡ some (u, b ∷ []))
      × (kbd_isr 0xfe u ≡ some (w, b ∷ []))
      × (kbd_isr 0xfe w ≡ some (s, []))
unfolding kbd_isr resend
resend_four s fresh = (
  record s { retry_cnt = 1 },
  record s { retry_cnt = 2 },
  record s { retry_cnt = 3 },
  ground arith,
  refl,
  refl,
  ground arith,
)
