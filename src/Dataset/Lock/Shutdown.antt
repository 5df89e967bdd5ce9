-- ===== src/Dataset/Lock/Shutdown.antt =====
-- When the lock manager can stop.
use sentrazero.Base.{
  ◌≡◌, refl, ap, String, Bool, true, false, none, some, List, [], ◌∷◌, ◌==◌, if◌then◌else◌, arith,
  eq_iff, has, Option-cases, inl, inr,
}
use sentrazero.Base.Dict.{lookup, lookup-delete}
use sentrazero.Dataset.Lock.{LockId, same_lock}
use sentrazero.Dataset.Lock.Manager.{
  Manager, end_loop, release_merge_lock, stop, release_each, release_all_merge_locks,
}

-- Does a heartbeat loop of the lock run?
unfoldable pub runs : LockId → List LockId → Bool
runs id [] = false
runs id (x ∷ xs) = if same_lock x id then true else runs id xs

runs-end_loop :
    (gone id : LockId) (xs : List LockId)
    → same_lock gone id ≡ false
    → runs id (end_loop gone xs) ≡ runs id xs
unfolding runs end_loop
runs-end_loop gone id [] h = refl
runs-end_loop gone id (x ∷ xs) h = ground (
  arith,
  runs-end_loop gone id xs h,
  eq_iff x.dataset_id gone.dataset_id,
  eq_iff x.dataset_id id.dataset_id,
  eq_iff gone.dataset_id id.dataset_id,
)

-- A lock that is released by a name other than its dataset's stays held, with its loop.
pub record Held (d : String) (id : LockId) (m : Manager) : Type 0 where
  pub local : lookup d m.local_locks ≡ some id
  pub own : id.dataset_id ≡ d
  pub tended : runs id m.loops ≡ true

-- Every local lock is of the dataset that it stands under.
abbrev pub IsOwn : Manager → Type 0
IsOwn m = (k : String) (id : LockId) → lookup k m.local_locks ≡ some id → id.dataset_id ≡ k

release-Held :
    (j d : String) (id : LockId) (m : Manager)
    → IsOwn m
    → (j == d) ≡ false
    → Held d id m
    → Held d id (release_merge_lock j m)
unfolding release_merge_lock
release-Held j d id m own h v = elim (Option-cases (lookup j m.local_locks)) [
  | inl e ↦ rw (e, release_merge_lock) v
  | inr (x, e) ↦
      rw (e, release_merge_lock)
        (record {
          local = ground (arith, v.local, lookup-delete j d m.local_locks, eq_iff j d);
          own = v.own;
          tended = ground (
            arith,
            v.tended,
            v.own,
            own j x e,
            runs-end_loop x id m.loops,
            eq_iff x.dataset_id id.dataset_id,
            eq_iff j d,
          );
        })
]

release-IsOwn : (j : String) (m : Manager) → IsOwn m → IsOwn (release_merge_lock j m)
unfolding release_merge_lock
release-IsOwn j m own k id e = ground (arith, own k id, lookup-delete j k m.local_locks)

release_each-Held :
    (ids : List String) (d : String) (id : LockId) (m : Manager)
    → IsOwn m
    → has d ids ≡ false
    → Held d id m
    → Held d id (release_each ids m)
unfolding release_each has
release_each-Held [] d id m own h v = v
release_each-Held (j ∷ ids) d id m own h v =
    release_each-Held ids d id (release_merge_lock j m) (release-IsOwn j m own) (ground arith)
      (release-Held j d id m own (ground arith) v)

stop-runs : (id : LockId) (m : Manager) → runs id m.loops ≡ true → stop m ≡ none
unfolding stop runs
stop-runs id m h = ground arith

-- The shutdown names job ids and execution steps, the manager's locks stand under datasets: where there
-- is a manager and none of the ids is the name of a locked dataset, the lock keeps its heartbeat loop, and the shutdown waits
-- for it without an end of its own.
release_all_blocks :
    (ids : List String) (d : String) (id : LockId) (m : Manager)
    → IsOwn m
    → Held d id m
    → has d ids ≡ false
    → release_all_merge_locks ids (some m) ≡ none
unfolding release_all_merge_locks
release_all_blocks ids d id m own v h =
    ap (λ x. elim x [ none ↦ none | some stopped ↦ some (some stopped) ])
      (stop-runs id (release_each ids m) (release_each-Held ids d id m own h v).tended)
