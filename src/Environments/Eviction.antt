-- ===== src/Environments/Eviction.antt =====
-- The eviction of environments that were not used for a while: the marking, under the pool's mutex, and
-- one goroutine for each marked environment, which runs at some later time.
use sentrazero.Base.{
  ℕ, zero, suc, ◌-◌, ◌&&◌, none, some, List, [], ◌∷◌, ltb, if◌then◌else◌, get_elem?,
}
use sentrazero.Base.Dict.{Dict, delete}
use sentrazero.Environments.{
  cleaning, CachedEnvironment, Candidate, EnvironmentPool, FileSystem, state_at, update,
  is_warm_or_ready, is_cleaning, set_state,
}

-- The marking: each warm or ready environment that was not used for longer than the time to live.
unfoldable pub mark :
    FileSystem
    → ℕ
    → ℕ
    → Dict ℕ
    → List CachedEnvironment
    → List Candidate
    → List CachedEnvironment × List Candidate
unfolding update
mark disk now ttl [] store marked = (store, marked)
mark disk now ttl ((key, at) ∷ entries) store marked =
    let kept = mark disk now ttl entries store marked in
    elim (get_elem? store at) [
      | none ↦ kept
      | some env ↦
          let taken =
            mark disk now ttl entries (update at (set_state cleaning) store) (
              record { key = key; path = env.path; size = disk.size env.path; env = at }
              ∷ marked) in
          if is_warm_or_ready env.state && ltb ttl (now - env.last_used) then taken else kept
    ]

unfoldable pub run_eviction : FileSystem → ℕ → EnvironmentPool → EnvironmentPool
unfolding mark
run_eviction disk now p =
    let ttl = if ltb 0 p.warm_timeout then p.warm_timeout else 1_800_000_000_000 in
    let marked = mark disk now ttl p.environments p.store p.evicting in
    record p { store = marked.0; evicting = marked.1 }

-- The goroutine of one candidate. A failure of the removal is only logged.
unfoldable pub evict_one : Candidate → EnvironmentPool → EnvironmentPool
unfolding delete
evict_one c p =
    if is_cleaning (state_at c.env p.store)
    then record p {
      removed = c.path ∷ p.removed;
      environments = delete c.key p.environments;
      current_disk_bytes = p.current_disk_bytes - c.size;
    }
    else p

-- The first goroutines, that many, run.
unfoldable pub run_goroutines : ℕ → EnvironmentPool → EnvironmentPool
unfolding evict_one
run_goroutines zero p = p
run_goroutines (suc n) p = elim p.evicting [
  | [] ↦ p
  | c ∷ rest ↦ run_goroutines n (evict_one c (record p { evicting = rest }))
]
