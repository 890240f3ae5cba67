-- ===== src/Spinlock/Tests.antt =====
-- Runs of the locks, and mutual exclusion in a state that is reached.
use pzos.Base.{ℕ, true, ◌≡◌, refl, List, [], ◌∷◌, ◌++◌, Option, some}
use pzos.Spinlock.{Lock, Reachable, move, testing, setting, inside, spinlock_init}
use pzos.Spinlock.{call, test_free, set_free, initially, after}
use pzos.Spinlock.Exclusion.{mutual_exclusion}
use pzos.Spinlock.ReadWrite.{
  Place, RwLock, Action, read, write, go, reading, writing, rwlock_init, proceed, act, act_all,
  away,
}

-- Processor 7 has taken the lock.
abbrev taken : Lock
taken = record (move 7 inside (move 7 setting (move 7 testing spinlock_init))) { locked = true }

taken-Reachable : Reachable taken
taken-Reachable =
    after (after (after initially (call 7 refl)) (test_free 7 refl refl)) (set_free 7 refl refl)

mutual_exclusion_example :
    ((t u : ℕ) → taken.point t ≡ inside → taken.point u ≡ inside → t ≡ u)
    × ((t : ℕ) → taken.point t ≡ inside → true ≡ true)
    × (true ≡ true → (t : ℕ) × (taken.point t ≡ inside))
mutual_exclusion_example = mutual_exclusion taken taken-Reachable

-- Reader 0 enters alone.
abbrev enters : List Action
enters = read 0 ∷ go 0 ∷ go 0 ∷ go 0 ∷ go 0 ∷ go 0 ∷ []

-- Reader 1 loads the number of readers; reader 0 leaves, as the last one; reader 1 stores its number
-- and goes on in, without the writer's lock.
abbrev lost_update : List Action
lost_update = read 1 ∷ go 1 ∷ go 1 ∷ go 0 ∷ go 0 ∷ go 1 ∷ go 1 ∷ []

abbrev race : List Action
race = enters ++ (lost_update ++ (write 2 ∷ go 2 ∷ []))

abbrev place_of : ℕ → Option RwLock → Place
place_of cpu (some s) = s.place cpu
place_of cpu _ = away

-- A reader and a writer are inside at once.
read_write_race :
    (place_of 1 (act_all race rwlock_init) ≡ reading)
    × (place_of 2 (act_all race rwlock_init) ≡ writing)
unfolding act_all act proceed
read_write_race = (refl, refl)

-- Reader 0 stays inside while reader 1 takes reader_lock.
two_readers : place_of 0 (act_all (enters ++ (read 1 ∷ go 1 ∷ [])) rwlock_init) ≡ reading
unfolding act_all act proceed
two_readers = refl
