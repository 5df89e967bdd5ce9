-- ===== src/Dataset/Lock/Backend.antt =====
-- The in-memory lock backend of internal/dataset/lock.go. Every method takes the reading of the
-- clock; its mutex makes each of them one step.
use sentrazero.Base.{
  ℕ, ◌+◌, String, Bool, true, false, not, Option, none, some, [], ◌∷◌, ◌&&◌, ◌||◌, ltb,
  if◌then◌else◌,
}
use sentrazero.Base.Dict.{Dict, lookup, insert, delete, retain}
use sentrazero.Dataset.Lock.{
  LockId, same_lock, LockStatus, active, released, expired, InMemoryLock, merge_lock_duration,
}

abbrev pub Locks : Type 0
Locks = Dict InMemoryLock

abbrev pub is_active : LockStatus → Bool
is_active active = true
is_active released = false
is_active expired = false

abbrev pub is_expired : LockStatus → Bool
is_expired expired = true
is_expired active = false
is_expired released = false

-- `existing.Status == "active" && existing.ExpiresAt.After(now)`
unfoldable pub is_held : ℕ → Option InMemoryLock → Bool
is_held now none = false
is_held now (some l) = is_active l.status && ltb now l.expires_at

-- `existing.ExpiresAt.Before(now) || existing.Status == "expired"`
unfoldable pub is_stale : ℕ → Option InMemoryLock → Bool
is_stale now none = false
is_stale now (some l) = ltb l.expires_at now || is_expired l.status

abbrev pub new_lock : String → String → String → ℕ → ℕ → InMemoryLock
new_lock dataset_id agent_id device_id duration now = record {
  dataset_id = dataset_id;
  agent_id = agent_id;
  device_id = device_id;
  lock_id = record { dataset_id = dataset_id; nanos = now };
  acquired_at = now;
  expires_at = now + duration;
  status = active;
}

-- The lock, where it is not held: the id and the expiry.
unfoldable pub acquire_lock : String → String → String → ℕ → ℕ → Locks → Option InMemoryLock × Locks
acquire_lock dataset_id agent_id device_id duration now locks =
    let existing = lookup dataset_id locks in
    let l = new_lock dataset_id agent_id device_id duration now in
    if is_held now existing then (none, locks) else (
      some l,
      insert dataset_id l (if is_stale now existing then delete dataset_id locks else locks),
    )

-- The loop's search for a lock id: the key of the entry.
unfoldable pub find_lock : LockId → Locks → Option String
find_lock id [] = none
find_lock id ((k, l) ∷ locks) = if same_lock l.lock_id id then some k else find_lock id locks

-- False where no entry has the id.
unfoldable pub release_lock : LockId → Locks → Bool × Locks
release_lock id locks = elim (find_lock id locks) [
  | none ↦ (false, locks)
  | some k ↦ (true, delete k locks)
]

abbrev pub extend : ℕ → InMemoryLock → InMemoryLock
extend now l = record l { expires_at = now + merge_lock_duration }

-- The write through the pointer of the entry that was found.
unfoldable pub extend_at : String → ℕ → Locks → Locks
extend_at k now locks = elim (lookup k locks) [
  | none ↦ locks
  | some l ↦ insert k (extend now l) locks
]

unfoldable pub update_heartbeat : LockId → ℕ → Locks → Bool × Locks
update_heartbeat id now locks = elim (find_lock id locks) [
  | none ↦ (false, locks)
  | some k ↦ (true, extend_at k now locks)
]

unfoldable pub cleanup_expired : ℕ → Locks → Locks
cleanup_expired now locks = retain (λ l. not (ltb l.expires_at now)) locks
