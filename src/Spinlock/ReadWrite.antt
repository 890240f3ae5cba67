-- ===== src/Spinlock/ReadWrite.antt =====
-- rwlock_t, with an acquisition of one of its spinlocks as one step. `++lock->readers` is a load and a
-- store; the decrement of read_release is one atomic step.
use pzos.Base.{ℕ, ◌+◌, ◌-◌, ◌%◌, ◌^◌, Bool, true, false, List, [], ◌∷◌, Option, none, some}
use pzos.Base.{◌==◌, if◌then◌else◌}

-- Where a processor is: in read_acquire before the acquisition of reader_lock, before the load, the
-- store and the acquisition of writer_lock, and before the release of reader_lock; between
-- read_acquire and read_release; before the last step of read_release; and so for a writer.
pub data Place : Type 0 where
  away : Place
  read_call load : Place
  store : ℕ → Place
  first_reader unlock reading last_reader : Place
  write_call writing : Place

pub record RwLock : Type 0 where
  pub reader_lock : Bool
  pub writer_lock : Bool
  pub readers : ℕ
  pub place : ℕ → Place

abbrev pub rwlock_init : RwLock
rwlock_init = record { reader_lock = false; writer_lock = false; readers = 0; place = λ i. away }

abbrev pub put_at : ℕ → Place → RwLock → RwLock
put_at cpu p s = record s { place = λ i. if cpu == i then p else s.place i }

-- The next step of a processor inside one of the functions, or the first of read_release or
-- write_release; `none` where it waits for a spinlock or is in none of them.
unfoldable pub proceed : ℕ → Place → RwLock → Option RwLock
proceed cpu away s = none
proceed cpu read_call s =
    if s.reader_lock then none else some (put_at cpu load (record s { reader_lock = true }))
proceed cpu load s = some (put_at cpu (store s.readers) s)
proceed cpu (store n) s =
    let readers = (n + 1) % 2 ^ 32 in
    some
      (put_at cpu (if readers == 1 then first_reader else unlock) (record s { readers = readers }))
proceed cpu first_reader s =
    if s.writer_lock then none else some (put_at cpu unlock (record s { writer_lock = true }))
proceed cpu unlock s = some (put_at cpu reading (record s { reader_lock = false }))
proceed cpu reading s =
    let readers = (s.readers + (2 ^ 32 - 1)) % 2 ^ 32 in
    some (put_at cpu (if readers == 0 then last_reader else away) (record s { readers = readers }))
proceed cpu last_reader s = some (put_at cpu away (record s { writer_lock = false }))
proceed cpu write_call s =
    if s.writer_lock then none else some (put_at cpu writing (record s { writer_lock = true }))
proceed cpu writing s = some (put_at cpu away (record s { writer_lock = false }))

pub data Action : Type 0 where
  read write go : ℕ → Action

unfoldable pub act : Action → RwLock → Option RwLock
act (read cpu) s = elim (s.place cpu) [ away ↦ some (put_at cpu read_call s) | _ ↦ none ]
act (write cpu) s = elim (s.place cpu) [ away ↦ some (put_at cpu write_call s) | _ ↦ none ]
act (go cpu) s = proceed cpu (s.place cpu) s

abbrev pub then_run : (RwLock → Option RwLock) → Option RwLock → Option RwLock
then_run rest none = none
then_run rest (some s) = rest s

unfoldable pub act_all : List Action → RwLock → Option RwLock
act_all [] s = some s
act_all (a ∷ rest) s = then_run (act_all rest) (act a s)
