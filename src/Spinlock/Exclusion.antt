-- ===== src/Spinlock/Exclusion.antt =====
-- Mutual exclusion.
use pzos.Base.{ℕ, true, false, ◌≡◌, ◌≢◌, inl, inr, refl, sym, ◌∙◌, ◌==◌}
use pzos.Base.{Bool-cases, arith}
use pzos.Spinlock.{Point, Lock, Step, Reachable, move, outside, testing, setting, inside}
use pzos.Spinlock.{call, test_busy, test_free, set_busy, set_free, release, initially, after}

-- The lock is taken exactly if a processor is inside, and there is only one.
pub record IsExclusive (s : Lock) : Type 0 where
  pub single : (t u : ℕ) → s.point t ≡ inside → s.point u ≡ inside → t ≡ u
  pub taken : (t : ℕ) → s.point t ≡ inside → s.locked ≡ true
  pub held : s.locked ≡ true → (t : ℕ) × (s.point t ≡ inside)

moved :
    (cpu t : ℕ) (p : Point) (s : Lock)
    → p ≢ inside
    → (move cpu p s).point t ≡ inside
    → s.point t ≡ inside
moved cpu t p s out e = elim (Bool-cases (cpu == t)) [
  | inl same ↦ absurd (out (rw same at e))
  | inr other ↦ rw other at e
]

stays :
    (cpu t : ℕ) (p : Point) (s : Lock)
    → s.point cpu ≢ inside
    → s.point t ≡ inside
    → (move cpu p s).point t ≡ inside
stays cpu t p s was at = elim (Bool-cases (cpu == t)) [
  | inl same ↦ (let e : cpu ≡ t = ground arith in absurd (was (rw e at)))
  | inr other ↦ rw other at
]

-- A processor that is not inside moves to another place that is not.
IsExclusive-move :
    (cpu : ℕ) (p : Point) (s : Lock)
    → p ≢ inside
    → s.point cpu ≢ inside
    → IsExclusive s
    → IsExclusive (move cpu p s)
IsExclusive-move cpu p s out was inv = record {
  single = λ t u at_t at_u. inv.single t u (moved cpu t p s out at_t) (moved cpu u p s out at_u);
  taken = λ t at_t. inv.taken t (moved cpu t p s out at_t);
  held = λ locked. (let (t, at) = inv.held locked in (t, stays cpu t p s was at));
}

-- With the lock free nobody was inside before.
entered :
    (cpu t : ℕ) (s : Lock)
    → s.locked ≡ false
    → IsExclusive s
    → (move cpu inside s).point t ≡ inside
    → cpu ≡ t
entered cpu t s free inv at = elim (Bool-cases (cpu == t)) [
  | inl same ↦ ground arith
  | inr other ↦
      let was : s.point t ≡ inside = rw other at at in
      let locked : s.locked ≡ true = inv.taken t was in cc (locked, free)
]

-- The only one that was inside has left.
left :
    (cpu t : ℕ) (s : Lock)
    → s.point cpu ≡ inside
    → IsExclusive s
    → (move cpu outside s).point t ≢ inside
left cpu t s at inv now = elim (Bool-cases (cpu == t)) [
  | inl same ↦ cc (rw same at now)
  | inr other ↦
      let was : s.point t ≡ inside = rw other at now in
      let e : cpu ≡ t = inv.single cpu t at was in absurd (ground (arith, other, e))
]

not_inside : (p q : Point) → q ≡ p → p ≢ inside → q ≢ inside
not_inside p q e out at = out (sym e ∙ at)

Step-IsExclusive : {s t : Lock} → Step s t → IsExclusive s → IsExclusive t
Step-IsExclusive (call cpu {s} at) inv =
    IsExclusive-move cpu testing s (λ e. cc e) (not_inside outside _ at (λ e. cc e)) inv
Step-IsExclusive (test_busy cpu {s} at l) inv =
    IsExclusive-move cpu testing s (λ e. cc e) (not_inside testing _ at (λ e. cc e)) inv
Step-IsExclusive (test_free cpu {s} at l) inv =
    IsExclusive-move cpu setting s (λ e. cc e) (not_inside testing _ at (λ e. cc e)) inv
Step-IsExclusive (set_busy cpu {s} at l) inv =
    IsExclusive-move cpu testing s (λ e. cc e) (not_inside setting _ at (λ e. cc e)) inv
Step-IsExclusive (set_free cpu {s} at l) inv = record {
  single = λ t u at_t at_u. sym (entered cpu t s l inv at_t) ∙ entered cpu u s l inv at_u;
  taken = λ t at_t. refl;
  held = λ locked. (cpu, (let same : (cpu == cpu) ≡ true = ground arith in rw same refl));
}
Step-IsExclusive (release cpu {s} at) inv = record {
  single = λ t u at_t at_u. absurd (left cpu t s at inv at_t);
  taken = λ t at_t. absurd (left cpu t s at inv at_t);
  held = λ locked. cc locked;
}

Reachable-IsExclusive : {s : Lock} → Reachable s → IsExclusive s
Reachable-IsExclusive initially = record {
  single = λ t u at_t at_u. cc at_t;
  taken = λ t at_t. cc at_t;
  held = λ locked. cc locked;
}
Reachable-IsExclusive (after r step) = Step-IsExclusive step (Reachable-IsExclusive r)

-- However the steps of the processors interleave: no two are past spin_acquire at once, and the lock
-- is taken exactly when one is.
pub mutual_exclusion :
    (s : Lock)
    → Reachable s
    → ((t u : ℕ) → s.point t ≡ inside → s.point u ≡ inside → t ≡ u)
      × ((t : ℕ) → s.point t ≡ inside → s.locked ≡ true)
      × (s.locked ≡ true → (t : ℕ) × (s.point t ≡ inside))
mutual_exclusion s r = let inv = Reachable-IsExclusive r in (inv.single, inv.taken, inv.held)
