-- ===== src/Tests/Locks.antt =====
-- One held lock, and the theorems at it.
use sentrazero.Base.{◌≡◌, refl, false, some, [], ◌∷◌, arith, eq_iff}
use sentrazero.Base.Dict.{lookup, occurs}
use sentrazero.Dataset.Lock.{LockId, InMemoryLock, merge_lock_duration}
use sentrazero.Dataset.Lock.Backend.{Locks, acquire_lock, new_lock, is_held}
use sentrazero.Dataset.Lock.Exclusion.{current, IsKeyed, current-acquire}
use sentrazero.Dataset.Lock.Manager.{Manager}
use sentrazero.Dataset.Lock.Shutdown.{Held, IsOwn, runs}

abbrev lock_id : LockId
lock_id = record { dataset_id = "dataset-1"; nanos = 100 }

abbrev held : InMemoryLock
held = new_lock "dataset-1" "agent-1" "device-1" merge_lock_duration 100

abbrev locks : Locks
locks = ("dataset-1", held) ∷ []

locks-IsKeyed : IsKeyed locks
unfolding occurs
locks-IsKeyed = (refl, refl, tt)

current-acquire_example :
    current "dataset-1" 200 (acquire_lock "dataset-1" "agent-2" "device-2" 50 150 locks).1
    ≡ some lock_id
unfolding current lookup is_held
current-acquire_example =
    current-acquire "dataset-1" "agent-2" "device-2" "dataset-1" 50 150 200 locks

abbrev manager : Manager
manager = record {
  local_locks = ("dataset-1", lock_id) ∷ [];
  loops = lock_id ∷ [];
  stopped = false;
}

manager-IsOwn : IsOwn manager
unfolding lookup
manager-IsOwn k id e = ground (arith, eq_iff "dataset-1" k)

manager-Held : Held "dataset-1" lock_id manager
unfolding lookup runs
manager-Held = record { local = refl; own = refl; tended = refl }
