-- ===== src/Environments/Sharing.antt =====
-- What callers share through the pool.
use sentrazero.Base.{
  ℕ, zero, suc, ◌≤◌, ◌≡◌, refl, sym, ap, ◌∙◌, String, Bool, true, false, not, ◌&&◌, none, some,
  List, [], ◌∷◌, ◌++◌, length, get_elem?, ltb, if◌then◌else◌, ◌==◌, arith, eq_refl,
}
use sentrazero.Base.Dict.{lookup, lookup-insert, lookup-delete, lookup-retain, occurs}
use sentrazero.Environments.{
  EnvState, active, invalid, cleaning, CachedEnvironment, EnvironmentPool, Candidate, state_at,
  is_cleaning,
}
use sentrazero.Environments.Keys.{Request, get_environment_key, env_path}
use sentrazero.Environments.Eviction.{evict_one}
use sentrazero.Environments.Pool.{
  Setting, created, acquire_environment, create_new, check_disk, add_environment, new_environment,
  over_disk, invalidate_environment, drop_id,
}

get_elem?-length :
    (store : List CachedEnvironment) (env : CachedEnvironment)
    → get_elem? (store ++ env ∷ []) (length store) ≡ some env
get_elem?-length [] env = refl
get_elem?-length (e ∷ store) env = get_elem?-length store env

get_elem?-append :
    (store : List CachedEnvironment) (env e : CachedEnvironment) (at : ℕ)
    → get_elem? store at ≡ some e
    → get_elem? (store ++ env ∷ []) at ≡ some e
get_elem?-append [] env e at h = cc
get_elem?-append (d ∷ store) env e zero h = h
get_elem?-append (d ∷ store) env e (suc at) h = get_elem?-append store env e at h

-- Neither the number of environments nor the size of the disk stands against a new environment.
abbrev pub has_space : EnvironmentPool → Bool
has_space p = ltb (length p.environments) p.max_environments && not (over_disk p)

create_with_space :
    (w : Setting) (r : Request) (p : EnvironmentPool)
    → w.makes_path ≡ true
    → has_space p ≡ true
    → create_new w r p ≡ add_environment w r p
unfolding create_new check_disk
create_with_space w r p m h = ground (arith, m, h)

-- The state of an environment in which an acquisition of its key makes a new one.
abbrev pub is_passed_over : EnvState → Bool
is_passed_over active = true
is_passed_over cleaning = true
is_passed_over invalid = true
is_passed_over _ = false

acquire_passed_over :
    (w : Setting) (r : Request) (p : EnvironmentPool) (at : ℕ) (env : CachedEnvironment)
    → lookup (get_environment_key r p.platform) p.environments ≡ some at
    → get_elem? p.store at ≡ some env
    → is_passed_over env.state ≡ true
    → acquire_environment w r p ≡ create_new w r p
unfolding acquire_environment
acquire_passed_over w r p at env h k s = ground (arith, h, k, s)

added :
    (w : Setting) (r : Request) (p : EnvironmentPool) (at : ℕ) (env : CachedEnvironment)
    → get_elem? p.store at ≡ some env
    → env.path ≡ env_path r p.sandbox_base
    → let q = add_environment w r p in
      (q.1 ≡ created (length p.store))
      × (lookup (get_environment_key r p.platform) q.0.environments ≡ some (length p.store))
      × (get_elem? q.0.store at ≡ some env)
      × ((b : CachedEnvironment) × (get_elem? q.0.store (length p.store) ≡ some b)
          × (b.path ≡ env.path))
unfolding add_environment new_environment
added w r p at env k same =
    let key = get_environment_key r p.platform in
    let new = new_environment w.now r p in
    (
      refl,
      ground (arith, lookup-insert key key (length p.store) p.environments, eq_refl key),
      get_elem?-append p.store new env at k,
      (new, get_elem?-length p.store new, sym same),
    )

-- Does the pointer lead to no environment with the id.
abbrev pub is_other : String → List CachedEnvironment → ℕ → Bool
is_other id store at = elim (get_elem? store at) [ none ↦ true | some env ↦ not (env.id == id) ]

-- An acquisition with space of a key whose environment is in use, or marked for an eviction, makes a new
-- environment in the directory of that one, which keeps its place in the store but loses its entry.
pub directory_shared :
    (w : Setting) (r : Request) (p : EnvironmentPool) (at : ℕ) (env : CachedEnvironment)
    → lookup (get_environment_key r p.platform) p.environments ≡ some at
    → get_elem? p.store at ≡ some env
    → is_passed_over env.state ≡ true
    → env.path ≡ env_path r p.sandbox_base
    → w.makes_path ≡ true
    → has_space p ≡ true
    → let q = acquire_environment w r p in
      (q.1 ≡ created (length p.store))
      × (lookup (get_environment_key r p.platform) q.0.environments ≡ some (length p.store))
      × (get_elem? q.0.store at ≡ some env)
      × ((b : CachedEnvironment) × (get_elem? q.0.store (length p.store) ≡ some b)
          × (b.path ≡ env.path))
directory_shared w r p at env h k s same m space =
    rw (acquire_passed_over w r p at env h k s)
      (rw (create_with_space w r p m space) (added w r p at env k same))

evicts_entry :
    (c : Candidate) (q : EnvironmentPool)
    → is_cleaning (state_at c.env q.store) ≡ true
    → (lookup c.key (evict_one c q).environments ≡ none)
      × ((evict_one c q).removed ≡ c.path ∷ q.removed)
unfolding evict_one
evicts_entry c q h = ground (arith, h, lookup-delete c.key c.key q.environments, eq_refl c.key)

state_of :
    (store : List CachedEnvironment) (at : ℕ) (env : CachedEnvironment)
    → get_elem? store at ≡ some env
    → is_cleaning env.state ≡ true
    → is_cleaning (state_at at store) ≡ true
state_of store at env h k = ground (arith, h, k)

-- An environment that an eviction has marked is replaced, in an acquisition with space, by a new one; the
-- goroutine of that eviction then removes the new one's directory and its entry.
pub eviction_removes_successor :
    (w : Setting) (r : Request) (p : EnvironmentPool) (at size : ℕ) (env : CachedEnvironment)
    → lookup (get_environment_key r p.platform) p.environments ≡ some at
    → get_elem? p.store at ≡ some env
    → env.state ≡ cleaning
    → env.path ≡ env_path r p.sandbox_base
    → w.makes_path ≡ true
    → has_space p ≡ true
    → let q = acquire_environment w r p in
      let key = get_environment_key r p.platform in
      let c : Candidate = record { key = key; path = env.path; size = size; env = at } in
      (q.1 ≡ created (length p.store))
      × (lookup key (evict_one c q.0).environments ≡ none)
      × ((b : CachedEnvironment) × (get_elem? q.0.store (length p.store) ≡ some b)
          × ((evict_one c q.0).removed ≡ b.path ∷ q.0.removed))
eviction_removes_successor w r p at size env h k s same m space =
    let key = get_environment_key r p.platform in
    let c : Candidate = record { key = key; path = env.path; size = size; env = at } in
    let q = (acquire_environment w r p).0 in
    let shared = directory_shared w r p at env h k (rw s refl) same m space in
    let evicted = evicts_entry c q (state_of q.store at env shared.2 (rw s refl)) in
    let b = shared.3 in
    (shared.0, evicted.0, (b.0, b.1, evicted.1 ∙ ap (λ path. path ∷ q.removed) (sym b.2)))

-- An invalidation drops the entries of every environment with its id, and no other: an environment of
-- another organisation with the same first sixteen characters of its hash loses its entry too.
pub lookup-invalidate :
    (p : EnvironmentPool) (at : ℕ) (env : CachedEnvironment) (key : String)
    → occurs key p.environments ≤ 1
    → get_elem? p.store at ≡ some env
    → lookup key (invalidate_environment at p).environments ≡ elim (lookup key p.environments) [
      | none ↦ none
      | some other ↦ if is_other env.id p.store other then some other else none
    ]
unfolding invalidate_environment drop_id
lookup-invalidate p at env key m h =
    rw (h, invalidate_environment) (lookup-retain (is_other env.id p.store) key p.environments m)
