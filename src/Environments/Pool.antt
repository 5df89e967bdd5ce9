-- ===== src/Environments/Pool.antt =====
-- The operations of the environment pool. A call of AcquireEnvironment that waits for another caller's
-- set-up is two steps: the call up to the wait, and what follows its end. Each step is atomic. The source
-- gives up the mutex while it evicts for the disk's sake, and then looks at the disk again, not at the
-- number of environments: what other calls do in that gap is not modelled.
use sentrazero.Base.{
  ℕ, ◌+◌, ◌-◌, ◌&&◌, ◌==◌, String, Bool, true, false, not, none, some, List, [], ◌∷◌, ◌++◌, ltb,
  leb, if◌then◌else◌, length, get_elem?,
}
use sentrazero.Base.Dict.{Dict, lookup, insert, delete, retain}
use sentrazero.Environments.{
  pending, ready, active, warm, invalid, cleaning, CachedEnvironment, EnvironmentPool, FileSystem,
  update, is_cleaning, set_state,
}
use sentrazero.Environments.Validity.{is_valid_for_runtime}
use sentrazero.Environments.Keys.{Request, get_environment_key, hash_prefix, env_path}
use sentrazero.Environments.Eviction.{run_eviction, run_goroutines}

unfoldable pub new_environment : ℕ → Request → EnvironmentPool → CachedEnvironment
unfolding env_path
new_environment now r p = record {
  id = hash_prefix r;
  org_id = r.org_id;
  runtime_type = r.runtime_type;
  runtime_version = r.version;
  dependency_hash = r.lock_hash;
  path = env_path r p.sandbox_base;
  state = pending;
  use_count = 0;
  last_used = now;
  signalled = false;
}

-- How a call ends or waits: with a cached environment, with a new one, waiting for one, or with an
-- error.
pub data Acquisition : Type 0 where
  hit created waits : ℕ → Acquisition
  no_path exhausted disk_full cancelled : Acquisition

-- The clock, the file system, whether the directory can be made, and how many goroutines of each of
-- the two evictions run before the pool is looked at again.
pub record Setting : Type 0 where
  pub now : ℕ
  pub disk : FileSystem
  pub makes_path : Bool
  pub drained : ℕ
  pub drained_again : ℕ

unfoldable pub evict_then : ℕ → Setting → EnvironmentPool → EnvironmentPool
unfolding run_eviction run_goroutines
evict_then n w p = run_goroutines n (run_eviction w.disk w.now p)

-- The new environment stands at the end of the store, and under its key in the map.
unfoldable pub add_environment : Setting → Request → EnvironmentPool → EnvironmentPool × Acquisition
unfolding new_environment get_environment_key insert
add_environment w r p = (
  record p {
    store = p.store ++ new_environment w.now r p ∷ [];
    environments = insert (get_environment_key r p.platform) (length p.store) p.environments;
  },
  created (length p.store),
)

unfoldable pub over_disk : EnvironmentPool → Bool
over_disk p = ltb 0 p.max_disk_bytes && leb p.max_disk_bytes p.current_disk_bytes

unfoldable pub check_disk : Setting → Request → EnvironmentPool → EnvironmentPool × Acquisition
unfolding add_environment evict_then over_disk
check_disk w r p =
    let q = evict_then w.drained_again w p in
    if over_disk p
    then if leb q.max_disk_bytes q.current_disk_bytes then (q, disk_full) else add_environment w r q
    else add_environment w r p

unfoldable pub create_new : Setting → Request → EnvironmentPool → EnvironmentPool × Acquisition
unfolding check_disk evict_then
create_new w r p =
    let q = evict_then w.drained w p in
    if not w.makes_path
    then (p, no_path)
    else if leb p.max_environments (length p.environments)
    then if leb q.max_environments (length q.environments) then (q, exhausted) else check_disk w r q
    else check_disk w r p

-- A cached environment that is warm or ready.
unfoldable pub reuse :
    Setting → Request → ℕ → CachedEnvironment → EnvironmentPool → EnvironmentPool × Acquisition
unfolding create_new update
reuse w r at env p =
    if is_valid_for_runtime w.disk env.path r.runtime_type && w.disk.is_healthy env.path
    then (
      record p {
        store =
            update at
              (λ e. record e { state = active; use_count = e.use_count + 1; last_used = w.now })
              p.store;
      },
      hit at,
    )
    else create_new w r (record p {
      environments = delete (get_environment_key r p.platform) p.environments;
      removed = env.path ∷ p.removed;
    })

unfoldable pub acquire_environment :
    Setting → Request → EnvironmentPool → EnvironmentPool × Acquisition
unfolding create_new reuse
acquire_environment w r p = elim (lookup (get_environment_key r p.platform) p.environments) [
  | none ↦ create_new w r p
  | some at ↦ elim (get_elem? p.store at) [
    | none ↦ create_new w r p
    | some env ↦ elim env.state [
      | cleaning ↦ create_new w r p
      | pending ↦ (p, waits at)
      | ready ↦ reuse w r at env p
      | warm ↦ reuse w r at env p
      | active ↦ create_new w r p
      | invalid ↦ create_new w r p
    ]
  ]
]

-- How a wait ends: the environment's channel is closed, 120 seconds pass, or the context ends.
pub data WaitEnd : Type 0 where
  became_ready timed_out context_done : WaitEnd

unfoldable pub resume :
    WaitEnd → Setting → Request → EnvironmentPool → EnvironmentPool × Acquisition
unfolding acquire_environment
resume became_ready w r p = acquire_environment w r p
resume timed_out w r p = create_new w r p
resume context_done w r p = (p, cancelled)

unfoldable pub release_environment : Setting → Bool → ℕ → EnvironmentPool → EnvironmentPool
unfolding update
release_environment w keep_warm at p = elim (get_elem? p.store at) [
  | none ↦ p
  | some env ↦
      let state = if keep_warm && ltb (w.now - env.last_used) p.warm_timeout then warm else ready in
      if is_cleaning env.state then p else record p {
        store = update at (λ e. record e { state = state; last_used = w.now }) p.store;
        current_disk_bytes = p.current_disk_bytes + w.disk.size env.path;
      }
]

-- The entries of every environment with the id, whoever's it is.
unfoldable pub drop_id : String → List CachedEnvironment → Dict ℕ → Dict ℕ
unfolding retain
drop_id id store =
    retain (λ at. elim (get_elem? store at) [ none ↦ true | some env ↦ not (env.id == id) ])

-- The goroutine that removes the directory has run.
unfoldable pub invalidate_environment : ℕ → EnvironmentPool → EnvironmentPool
unfolding drop_id update
invalidate_environment at p = elim (get_elem? p.store at) [
  | none ↦ p
  | some env ↦ record p {
    store = update at (set_state invalid) p.store;
    environments = drop_id env.id p.store p.environments;
    removed = if env.path == "" then p.removed else env.path ∷ p.removed;
  }
]

-- The directories that the shutdown removes: those of pending and invalid environments.
unfoldable pub leftovers : List CachedEnvironment → Dict ℕ → List String
leftovers store [] = []
leftovers store ((key, at) ∷ entries) =
    let rest = leftovers store entries in
    elim (get_elem? store at) [
      | none ↦ rest
      | some env ↦ elim env.state [
        | pending ↦ env.path ∷ rest
        | invalid ↦ env.path ∷ rest
        | _ ↦ rest
      ]
    ]

unfoldable pub shutdown : EnvironmentPool → EnvironmentPool
unfolding leftovers
shutdown p = record p { environments = []; removed = leftovers p.store p.environments ++ p.removed }
