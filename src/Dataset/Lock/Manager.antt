-- ===== src/Dataset/Lock/Manager.antt =====
-- The lock manager of internal/dataset/lock.go over any backend, whose answers are arguments, and
-- `ReleaseAllMergeLocks` of internal/dispatcher/worker_pool.go.
use sentrazero.Base.{
  ℕ, zero, suc, String, Bool, true, false, Option, none, some, List, [], ◌∷◌, if◌then◌else◌,
}
use sentrazero.Base.Dict.{Dict, lookup, insert, delete}
use sentrazero.Dataset.Lock.{LockId, same_lock}

-- `localLocks` and the locks whose `heartbeatLoop` runs: those that `wg` waits for.
pub record Manager : Type 0 where
  pub local_locks : Dict LockId
  pub loops : List LockId
  pub stopped : Bool

-- The backend's answers to the calls of one acquisition: the heartbeat of a local lock, each attempt
-- by its number, and whether the context ended in the wait after it.
pub record Answers : Type 0 where
  pub heartbeat : Bool
  pub attempt : ℕ → Option LockId
  pub cancelled : ℕ → Bool

pub data Acquired : Type 0 where
  -- the lock that was there, or a new one
  existing acquired : LockId → Acquired
  gave_up context_ended : Acquired

abbrev pub max_lock_retries : ℕ
max_lock_retries = 3

abbrev pub hold : String → LockId → Manager → Manager
hold dataset_id id m = record m {
  local_locks = insert dataset_id id m.local_locks;
  loops = id ∷ m.loops;
}

-- The loop over the attempts: `left` of them from number `i` on.
unfoldable pub attempts : ℕ → ℕ → Answers → String → Manager → Acquired × Manager
attempts zero i a dataset_id m = (gave_up, m)
attempts (suc left) i a dataset_id m =
    let again = attempts left (suc i) a dataset_id m in
    elim (a.attempt i) [
      | some id ↦ (acquired id, hold dataset_id id m)
      | none ↦ if a.cancelled i then (context_ended, m) else again
    ]

-- A local lock whose heartbeat fails is dropped from the map; its loop goes on.
unfoldable pub acquire_merge_lock : Answers → String → Manager → Acquired × Manager
acquire_merge_lock a dataset_id m = elim (lookup dataset_id m.local_locks) [
  | some id ↦
      if a.heartbeat
      then (existing id, m)
      else attempts max_lock_retries 0 a dataset_id
          (record m { local_locks = delete dataset_id m.local_locks })
  | none ↦ attempts max_lock_retries 0 a dataset_id m
]

-- `state.Cancel()`: the loop of that lock ends.
unfoldable pub end_loop : LockId → List LockId → List LockId
end_loop id [] = []
end_loop id (x ∷ xs) = let rest = end_loop id xs in if same_lock x id then rest else x ∷ rest

-- The backend's answer is only logged.
unfoldable pub release_merge_lock : String → Manager → Manager
release_merge_lock dataset_id m = elim (lookup dataset_id m.local_locks) [
  | none ↦ m
  | some id ↦ record m {
    local_locks = delete dataset_id m.local_locks;
    loops = end_loop id m.loops;
  }
]

abbrev none_running : List LockId → Bool
none_running [] = true
none_running (x ∷ xs) = false

-- `Stop` waits for every heartbeat loop before it cancels any: `none` is a wait that does not end
-- by itself, since a loop ends only by its lock's `Cancel`, which the waiting call has yet to make.
unfoldable pub stop : Manager → Option Manager
stop m = if none_running m.loops then some (record m { local_locks = []; stopped = true }) else none

unfoldable pub release_each : List String → Manager → Manager
release_each [] m = m
release_each (id ∷ ids) m = release_each ids (release_merge_lock id m)

-- `ReleaseAllMergeLocks`: the ids are the keys of `activeJobs` and `runningJobs`.
-- `none` is a manager that was never made; the answer is `none` where the stop does not end.
unfoldable pub release_all_merge_locks : List String → Option Manager → Option (Option Manager)
release_all_merge_locks ids none = some none
release_all_merge_locks ids (some m) = elim (stop (release_each ids m)) [
  | none ↦ none
  | some stopped ↦ some (some stopped)
]
