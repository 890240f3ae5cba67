-- ===== src/Spinlock.antt =====
-- kernel/include/kernel/spinlock.h: processors that contend for a spinlock, one step at a time, and
-- the readers and writers of an rwlock.
pub mod Exclusion
pub mod ReadWrite
mod Tests
use pzos.Base.{ℕ, Bool, true, false, ◌≡◌, ◌==◌, if◌then◌else◌}

-- Where a processor is: in none of the functions, at the test of `lock->locked`, at the atomic
-- test-and-set behind it, or past spin_acquire.
pub data Point : Type 0 where
  outside testing setting inside : Point

pub record Lock : Type 0 where
  pub locked : Bool
  pub point : ℕ → Point

abbrev pub move : ℕ → Point → Lock → Lock
move cpu p s = record s { point = λ i. if cpu == i then p else s.point i }

abbrev pub spinlock_init : Lock
spinlock_init = record { locked = false; point = λ i. outside }

-- The steps of spin_acquire and spin_release.
pub data Step : Lock → Lock → Type 0 where
  call : (cpu : ℕ) {s : Lock} → s.point cpu ≡ outside → Step s (move cpu testing s)
  test_busy :
      (cpu : ℕ) {s : Lock} → s.point cpu ≡ testing → s.locked ≡ true → Step s (move cpu testing s)
  test_free :
      (cpu : ℕ) {s : Lock} → s.point cpu ≡ testing → s.locked ≡ false → Step s (move cpu setting s)
  set_busy :
      (cpu : ℕ) {s : Lock} → s.point cpu ≡ setting → s.locked ≡ true → Step s (move cpu testing s)
  set_free :
      (cpu : ℕ) {s : Lock}
      → s.point cpu ≡ setting
      → s.locked ≡ false
      → Step s (record (move cpu inside s) { locked = true })
  release :
      (cpu : ℕ) {s : Lock}
      → s.point cpu ≡ inside
      → Step s (record (move cpu outside s) { locked = false })

-- What the processors can come to from the initial state.
pub data Reachable : Lock → Type 0 where
  initially : Reachable spinlock_init
  after : {s t : Lock} → Reachable s → Step s t → Reachable t
