-- ===== src/Dataset/Lock/Exclusion.antt =====
-- The lock excludes: no second holder while the first one's time runs.
use sentrazero.Base.{
  ℕ, ◌+◌, ◌≤◌, ◌≡◌, refl, String, true, not, Option, none, some, [], ◌∷◌, ◌==◌, ltb, nat_eq,
  if◌then◌else◌, arith, eq_iff, inl, inr, ◌↔◌, ◌≢◌, Option-cases,
}
use sentrazero.Base.Dict.{
  lookup, delete, occurs, lookup_absent, lookup-insert, lookup-delete, lookup-retain,
}
use sentrazero.Dataset.Lock.{LockId, same_lock, InMemoryLock, merge_lock_duration, active}
use sentrazero.Dataset.Lock.Backend.{
  Locks, is_held, new_lock, acquire_lock, find_lock, release_lock, extend, extend_at,
  update_heartbeat, cleanup_expired,
}

-- What an acquisition leaves for each dataset.
lookup-acquire :
    (d a v j : String) (duration now : ℕ) (locks : Locks)
    → lookup j (acquire_lock d a v duration now locks).1 ≡ (
        if is_held now (lookup d locks)
        then lookup j locks
        else if d == j
        then some (new_lock d a v duration now)
        else lookup j locks)
unfolding acquire_lock
lookup-acquire d a v j duration now locks = ground (
  arith,
  lookup-insert d j (new_lock d a v duration now) locks,
  lookup-insert d j (new_lock d a v duration now) (delete d locks),
  lookup-delete d j locks,
)

-- The abstract view: the lock that holds a dataset at an instant, if one does.
unfoldable pub current : String → ℕ → Locks → Option LockId
current d t locks = elim (lookup d locks) [
  | none ↦ none
  | some l ↦ if is_held t (some l) then some l.lock_id else none
]

-- An acquisition takes a dataset that nobody holds at its instant, for its duration, and changes
-- the holder of no other dataset; where the dataset is held it changes nothing.
pub current-acquire :
    (d a v j : String) (duration now t : ℕ) (locks : Locks)
    → current j t (acquire_lock d a v duration now locks).1 ≡ elim (current d now locks) [
      | some id ↦ current j t locks
      | none ↦
          if d == j
          then if ltb t (now + duration)
            then some (record { dataset_id = d; nanos = now })
            else none
          else current j t locks
    ]
unfolding current is_held
current-acquire d a v j duration now t locks =
    ground (arith, lookup-acquire d a v j duration now locks, eq_iff d j)

-- An acquisition succeeds exactly where nobody holds the dataset at its instant.
pub acquire-succeeds_iff :
    (d a v : String) (duration now : ℕ) (locks : Locks)
    → ((acquire_lock d a v duration now locks).0 ≢ none) ↔ (current d now locks ≡ none)
unfolding current acquire_lock is_held
acquire-succeeds_iff d a v duration now locks = (λ h. ground arith, λ h e. ground arith)

-- Every entry stands under its own dataset, once.
abbrev pub IsKeyed : Locks → Type 0
IsKeyed [] = Unit {0}
IsKeyed ((k, l) ∷ m) = (l.lock_id.dataset_id ≡ k) × (occurs k m ≡ 0) × IsKeyed m

find_lock_lem :
    (id : LockId) (locks : Locks)
    → IsKeyed locks
    → find_lock id locks ≡ elim (lookup id.dataset_id locks) [
      | none ↦ none
      | some l ↦ if nat_eq l.lock_id.nanos id.nanos then some id.dataset_id else none
    ]
unfolding find_lock lookup
find_lock_lem id [] h = refl
find_lock_lem id ((k, l) ∷ m) h = ground (
  arith,
  find_lock_lem id m h.2,
  lookup_absent k m h.1,
  eq_iff k id.dataset_id,
  eq_iff l.lock_id.dataset_id id.dataset_id,
)

pub lookup-keyed :
    (k : String) (m : Locks) (l : InMemoryLock)
    → IsKeyed m
    → lookup k m ≡ some l
    → l.lock_id.dataset_id ≡ k
unfolding lookup
lookup-keyed k [] l h e = cc
lookup-keyed k ((j, x) ∷ m) l h e = ground (arith, lookup-keyed k m l h.2, eq_iff j k)

-- Where every lock stands under its own dataset, a release ends the lock whose id it names, and no
-- other.
pub current-release :
    (id : LockId) (j : String) (t : ℕ) (locks : Locks)
    → IsKeyed locks
    → current j t (release_lock id locks).1 ≡ elim (current j t locks) [
      | none ↦ none
      | some held ↦ if same_lock held id then none else some held
    ]
unfolding current release_lock is_held
current-release id j t locks h = elim (Option-cases (lookup j locks)) [
  | inl e ↦
      ground (
        arith,
        find_lock_lem id locks h,
        lookup-delete id.dataset_id j locks,
        eq_iff id.dataset_id j,
      )
  | inr (l, e) ↦ ground (
    arith,
    find_lock_lem id locks h,
    lookup-delete id.dataset_id j locks,
    lookup-keyed j locks l h e,
    eq_iff id.dataset_id j,
    eq_iff l.lock_id.dataset_id id.dataset_id,
  )
]

pub keyed-occurs : (j : String) (m : Locks) → IsKeyed m → occurs j m ≤ 1
unfolding occurs
keyed-occurs j [] h = omega arith
keyed-occurs j ((k, l) ∷ m) h = ground (arith, keyed-occurs j m h.2, eq_iff k j)

-- Where every lock stands under its own dataset, a cleanup changes no holder at its instant or
-- later.
pub current-cleanup :
    (j : String) (now t : ℕ) (locks : Locks)
    → IsKeyed locks
    → now ≤ t
    → current j t (cleanup_expired now locks) ≡ current j t locks
unfolding current cleanup_expired is_held
current-cleanup j now t locks h k = ground (
  arith,
  lookup-retain (λ (l : InMemoryLock). not (ltb l.expires_at now)) j locks (keyed-occurs j locks h),
)

-- Where every lock stands under its own dataset, a heartbeat of an active lock that is there, with
-- its time over or not, holds its dataset for half an hour more, and changes the holder of no
-- other dataset.
pub current-heartbeat :
    (id : LockId) (j : String) (now t : ℕ) (locks : Locks) (l : InMemoryLock)
    → IsKeyed locks
    → lookup id.dataset_id locks ≡ some l
    → same_lock l.lock_id id ≡ true
    → l.status ≡ active
    → current j t (update_heartbeat id now locks).1 ≡ (
        if id.dataset_id == j
        then if ltb t (now + merge_lock_duration) then some l.lock_id else none
        else current j t locks)
unfolding current update_heartbeat extend_at is_held
current-heartbeat id j now t locks l h e s a = ground (
  arith,
  find_lock_lem id locks h,
  lookup-insert id.dataset_id j (extend now l) locks,
  eq_iff id.dataset_id j,
)
