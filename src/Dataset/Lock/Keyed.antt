-- ===== src/Dataset/Lock/Keyed.antt =====
-- The in-memory backend keeps every entry under its own dataset, once.
use sentrazero.Base.{
  ℕ, ◌≡◌, refl, String, Bool, true, false, not, Option, [], ◌∷◌, ◌==◌, ltb, if◌then◌else◌, arith,
  eq_iff, Option-cases, inl, inr,
}
use sentrazero.Base.Dict.{lookup, insert, delete, retain, occurs, occurs-delete, occurs-retain-le}
use sentrazero.Dataset.Lock.{LockId, InMemoryLock}
use sentrazero.Dataset.Lock.Backend.{
  Locks, is_held, is_stale, acquire_lock, find_lock, release_lock, extend, extend_at,
  update_heartbeat, cleanup_expired,
}
use sentrazero.Dataset.Lock.Exclusion.{IsKeyed, lookup-keyed}

occurs-insert_ne :
    (k j : String) (l : InMemoryLock) (m : Locks)
    → (k == j) ≡ false
    → occurs j (insert k l m) ≡ occurs j m
unfolding occurs insert
occurs-insert_ne k j l [] h = ground arith
occurs-insert_ne k j l ((i, w) ∷ m) h =
    ground (arith, occurs-insert_ne k j l m h, eq_iff i k, eq_iff i j, eq_iff k j)

insert-IsKeyed :
    (k : String) (l : InMemoryLock) (m : Locks)
    → l.lock_id.dataset_id ≡ k
    → IsKeyed m
    → IsKeyed (insert k l m)
unfolding insert occurs
insert-IsKeyed k l [] e h = (e, refl, tt)
insert-IsKeyed k l ((j, x) ∷ m) e h =
    ground (arith, insert-IsKeyed k l m e h.2, occurs-insert_ne k j l m, eq_iff j k, eq_iff k j)

delete-IsKeyed : (k : String) (m : Locks) → IsKeyed m → IsKeyed (delete k m)
unfolding delete
delete-IsKeyed k [] h = tt
delete-IsKeyed k ((j, x) ∷ m) h = ground (arith, delete-IsKeyed k m h.2, occurs-delete k j m)

retain-IsKeyed : (p : InMemoryLock → Bool) (m : Locks) → IsKeyed m → IsKeyed (retain p m)
unfolding retain
retain-IsKeyed p [] h = tt
retain-IsKeyed p ((j, x) ∷ m) h = ground (arith, retain-IsKeyed p m h.2, occurs-retain-le p j m)

-- The four methods of the backend.
pub data Call : Type 0 where
  acquires : String → String → String → ℕ → Call
  releases : LockId → Call
  heartbeats : LockId → Call
  cleans : Call

pub after : ℕ → Call → Locks → Locks
after now (acquires d a v duration) locks = (acquire_lock d a v duration now locks).1
after now (releases id) locks = (release_lock id locks).1
after now (heartbeats id) locks = (update_heartbeat id now locks).1
after now cleans locks = cleanup_expired now locks

extend_at-IsKeyed : (k : String) (now : ℕ) (m : Locks) → IsKeyed m → IsKeyed (extend_at k now m)
unfolding extend_at
extend_at-IsKeyed k now m h = elim (Option-cases (lookup k m)) [
  | inl e ↦ rw (e, extend_at) h
  | inr (l, e) ↦ rw (e, extend_at) (insert-IsKeyed k (extend now l) m (lookup-keyed k m l h e) h)
]

either-IsKeyed : (b : Bool) (x y : Locks) → IsKeyed x → IsKeyed y → IsKeyed (if b then x else y)
either-IsKeyed true x y hx hy = hx
either-IsKeyed false x y hx hy = hy

either_part :
    (b : Bool) (x y : Option InMemoryLock × Locks)
    → IsKeyed x.1
    → IsKeyed y.1
    → IsKeyed (if b then x else y).1
either_part true x y hx hy = hx
either_part false x y hx hy = hy

release-IsKeyed : (id : LockId) (m : Locks) → IsKeyed m → IsKeyed (release_lock id m).1
unfolding release_lock
release-IsKeyed id m h = elim (Option-cases (find_lock id m)) [
  | inl e ↦ rw (e, release_lock) h
  | inr (k, e) ↦ rw (e, release_lock) (delete-IsKeyed k m h)
]

heartbeat-IsKeyed :
    (id : LockId) (now : ℕ) (m : Locks) → IsKeyed m → IsKeyed (update_heartbeat id now m).1
unfolding update_heartbeat
heartbeat-IsKeyed id now m h = elim (Option-cases (find_lock id m)) [
  | inl e ↦ rw (e, update_heartbeat) h
  | inr (k, e) ↦ rw (e, update_heartbeat) (extend_at-IsKeyed k now m h)
]

-- Every method of the backend keeps each lock under its own dataset, once.
pub after-IsKeyed :
    (now : ℕ) (c : Call) (locks : Locks) → IsKeyed locks → IsKeyed (after now c locks)
unfolding after acquire_lock release_lock update_heartbeat cleanup_expired
after-IsKeyed now (acquires d a v duration) locks h =
    either_part (is_held now (lookup d locks)) _ _ h (
      insert-IsKeyed d _ _ refl
        (either-IsKeyed (is_stale now (lookup d locks)) _ _ (delete-IsKeyed d locks h) h))
after-IsKeyed now (releases id) locks h = release-IsKeyed id locks h
after-IsKeyed now (heartbeats id) locks h = heartbeat-IsKeyed id now locks h
after-IsKeyed now cleans locks h = retain-IsKeyed (λ l. not (ltb l.expires_at now)) locks h
