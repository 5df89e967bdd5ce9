-- ===== src/Environments/Capacity.antt =====
-- The number of environments in the pool, over every sequence of its operations.
use sentrazero.Base.{
  ℕ, zero, suc, ◌≤◌, ◌<◌, ◌≡◌, ◌⊎◌, inl, inr, Bool-cases, Option-cases, Bool, true, false, not,
  ◌&&◌, some, List, [], ◌∷◌, length, get_elem?, leb, if◌then◌else◌, arith,
}
use sentrazero.Base.Dict.{lookup, length-insert, length-delete, length-retain-le}
use sentrazero.Environments.{CachedEnvironment, EnvironmentPool, Candidate}
use sentrazero.Environments.Validity.{is_valid_for_runtime}
use sentrazero.Environments.Keys.{Request, get_environment_key}
use sentrazero.Environments.Eviction.{run_eviction, evict_one, run_goroutines}
use sentrazero.Environments.Sharing.{is_other}
use sentrazero.Environments.Pool.{
  Setting, Acquisition, exhausted, no_path, waits, acquire_environment, create_new, check_disk,
  add_environment, evict_then, reuse, invalidate_environment, drop_id, over_disk,
}

-- The pool's maximum, and a bound on its environments.
pub record Fits (n m : ℕ) (p : EnvironmentPool) : Type 0 where
  pub maximum : p.max_environments ≡ n
  pub bound : length p.environments ≤ m

add-Fits :
    (w : Setting) (r : Request) {n : ℕ} (m : ℕ) (p : EnvironmentPool)
    → Fits n m p
    → m < n
    → Fits n n (add_environment w r p).0
unfolding add_environment
add-Fits w r m p v h =
    let key = get_environment_key r p.platform in
    record {
      maximum = v.maximum;
      bound = ground (arith, length-insert key (length p.store) p.environments, h, v.bound);
    }

evict_one-Fits :
    (c : Candidate) {n m : ℕ} (p : EnvironmentPool) → Fits n m p → Fits n m (evict_one c p)
unfolding evict_one
evict_one-Fits c p v = record {
  maximum = ground (arith, v.maximum);
  bound = ground (arith, v.bound, length-delete c.key p.environments);
}

next_goroutine :
    (k : ℕ) {n m : ℕ} (p : EnvironmentPool) (queue : List Candidate)
    → Fits n m p
    → ((c : Candidate) (rest : List Candidate)
        → Fits n m (run_goroutines k (evict_one c (record p { evicting = rest }))))
    → Fits n m (elim queue [
      | [] ↦ p
      | c ∷ rest ↦ run_goroutines k (evict_one c (record p { evicting = rest }))
    ])
next_goroutine k p [] v step = v
next_goroutine k p (c ∷ rest) v step = step c rest

pub goroutines-Fits :
    (k : ℕ) {n m : ℕ} (p : EnvironmentPool) → Fits n m p → Fits n m (run_goroutines k p)
unfolding run_goroutines
goroutines-Fits zero p v = v
goroutines-Fits (suc k) p v = next_goroutine k p p.evicting v (λ c rest.
    goroutines-Fits k (evict_one c (record p { evicting = rest })) (
      evict_one-Fits c (record p { evicting = rest })
        record { maximum = v.maximum; bound = v.bound }))

evict_then-Fits :
    (k : ℕ) (w : Setting) {n m : ℕ} (p : EnvironmentPool) → Fits n m p → Fits n m (evict_then k w p)
unfolding evict_then run_eviction
evict_then-Fits k w p v =
    goroutines-Fits k (run_eviction w.disk w.now p) record { maximum = v.maximum; bound = v.bound }

widened : {n m : ℕ} (p : EnvironmentPool) → Fits n m p → m < n → Fits n n p
widened p v h = record { maximum = v.maximum; bound = omega (arith, v.bound, h) }

either-Fits :
    (b : Bool) {n m : ℕ} (p q : EnvironmentPool × Acquisition)
    → Fits n m p.0
    → Fits n m q.0
    → Fits n m (if b then p else q).0
either-Fits true p q hp hq = hp
either-Fits false p q hp hq = hq

-- A pool that is not full takes one more.
check_disk-Fits :
    (w : Setting) (r : Request) {n : ℕ} (m : ℕ) (p : EnvironmentPool)
    → Fits n m p
    → m < n
    → Fits n n (check_disk w r p).0
unfolding check_disk
check_disk-Fits w r {n} m p v h =
    let q = evict_then w.drained_again w p in
    let kept : Fits n m q = evict_then-Fits w.drained_again w p v in
    either-Fits (over_disk p) _ _
      (either-Fits (leb q.max_disk_bytes q.current_disk_bytes) _ _ (widened q kept h)
        (add-Fits w r m q kept h))
      (add-Fits w r m p v h)

-- The test of the length, before what follows it in a pool that is not full.
room_or_not :
    (w : Setting) (r : Request) {n : ℕ} (p : EnvironmentPool) (full : EnvironmentPool × Acquisition)
    → Fits n n p
    → Fits n n full.0
    → Fits n n (if leb p.max_environments (length p.environments) then full else check_disk w r p).0
room_or_not w r {n} p full v h =
    elim (Bool-cases (leb p.max_environments (length p.environments))) [
      | inl e ↦ rw e h
      | inr e ↦ rw e (
          check_disk-Fits w r (length p.environments) p
            record { maximum = v.maximum; bound = omega arith }
            (ground (arith, e, v.maximum, v.bound)))
    ]

pub create_new-Fits :
    (w : Setting) (r : Request) {n : ℕ} (p : EnvironmentPool)
    → Fits n n p
    → Fits n n (create_new w r p).0
unfolding create_new
create_new-Fits w r p v =
    let q = evict_then w.drained w p in
    let kept = evict_then-Fits w.drained w p v in
    either-Fits (not w.makes_path) (p, no_path) _ v
      (room_or_not w r p _ v (room_or_not w r q (q, exhausted) kept kept))

reuse-Fits :
    (w : Setting) (r : Request) (at : ℕ) (env : CachedEnvironment) {n : ℕ} (p : EnvironmentPool)
    → Fits n n p
    → Fits n n (reuse w r at env p).0
unfolding reuse
reuse-Fits w r at env p v =
    let key = get_environment_key r p.platform in
    either-Fits (is_valid_for_runtime w.disk env.path r.runtime_type && w.disk.is_healthy env.path)
      _ _ record { maximum = v.maximum; bound = v.bound }
      (create_new-Fits w r _ record {
        maximum = v.maximum;
        bound = ground (arith, length-delete key p.environments, v.bound);
      })

acquire_found :
    (w : Setting) (r : Request) (p : EnvironmentPool) (at : ℕ) (env : CachedEnvironment)
    → lookup (get_environment_key r p.platform) p.environments ≡ some at
    → get_elem? p.store at ≡ some env
    → (acquire_environment w r p ≡ create_new w r p)
      ⊎ (acquire_environment w r p ≡ (p, waits at))
      ⊎ (acquire_environment w r p ≡ reuse w r at env p)
unfolding acquire_environment
acquire_found w r p at env h k = ground (arith, h, k)

-- An acquisition makes a new environment, waits, or takes up one that is in the store.
acquire-cases :
    (w : Setting) (r : Request) (p : EnvironmentPool)
    → (acquire_environment w r p ≡ create_new w r p)
      ⊎ ((at : ℕ) × (acquire_environment w r p ≡ (p, waits at)))
      ⊎ ((at : ℕ) × (env : CachedEnvironment) × (acquire_environment w r p ≡ reuse w r at env p))
unfolding acquire_environment
acquire-cases w r p =
    elim (Option-cases (lookup (get_environment_key r p.platform) p.environments)) [
      | inl e ↦ inl (ground (arith, e))
      | inr (at, e) ↦ elim (Option-cases (get_elem? p.store at)) [
        | inl f ↦ inl (ground (arith, e, f))
        | inr (env, f) ↦ elim (acquire_found w r p at env e f) [
          | inl g ↦ inl g
          | inr (inl g) ↦ inr (inl (at, g))
          | inr (inr g) ↦ inr (inr (at, env, g))
        ]
      ]
    ]

pub acquire-Fits :
    (w : Setting) (r : Request) {n : ℕ} (p : EnvironmentPool)
    → Fits n n p
    → Fits n n (acquire_environment w r p).0
acquire-Fits w r p v = elim (acquire-cases w r p) [
  | inl e ↦ rw e (create_new-Fits w r p v)
  | inr (inl (at, e)) ↦ rw e v
  | inr (inr (at, env, e)) ↦ rw e (reuse-Fits w r at env p v)
]

pub invalidate-Fits :
    (at : ℕ) {n : ℕ} (p : EnvironmentPool) → Fits n n p → Fits n n (invalidate_environment at p)
unfolding invalidate_environment drop_id
invalidate-Fits at p v = elim (Option-cases (get_elem? p.store at)) [
  | inl e ↦ rw (e, invalidate_environment) v
  | inr (env, e) ↦
      rw (e, invalidate_environment)
        record {
          maximum = v.maximum;
          bound = omega (arith, length-retain-le (is_other env.id p.store) p.environments, v.bound);
        }
]
