-- ===== src/Environments/Accounting.antt =====
-- The disk space that the pool accounts for.
use sentrazero.Base.{
  ℕ, zero, suc, ◌+◌, ◌≡◌, refl, Bool, true, false, ◌&&◌, some, List, [], ◌∷◌, get_elem?, arith,
}
use sentrazero.Base.Dict.{lookup}
use sentrazero.Environments.{
  active, CachedEnvironment, EnvironmentPool, is_cleaning, is_warm_or_ready, update,
}
use sentrazero.Environments.Validity.{is_valid_for_runtime}
use sentrazero.Environments.Keys.{Request, get_environment_key}
use sentrazero.Environments.Pool.{Setting, hit, acquire_environment, reuse, release_environment}

-- What a write leaves at the pointer.
pub get_elem?-update :
    (at : ℕ) (f : CachedEnvironment → CachedEnvironment) (store : List CachedEnvironment)
    (env : CachedEnvironment)
    → get_elem? store at ≡ some env
    → get_elem? (update at f store) at ≡ some (f env)
unfolding update
get_elem?-update at f [] env h = cc
get_elem?-update zero f (e ∷ store) env h = ground (arith, h)
get_elem?-update (suc at) f (e ∷ store) env h = get_elem?-update at f store env h

disk-release :
    (w : Setting) (keep_warm : Bool) (at : ℕ) (p : EnvironmentPool) (env : CachedEnvironment)
    → get_elem? p.store at ≡ some env
    → is_cleaning env.state ≡ false
    → (release_environment w keep_warm at p).current_disk_bytes
      ≡ p.current_disk_bytes + w.disk.size env.path
unfolding release_environment
disk-release w keep_warm at p env h s = ground (arith, h, s)

acquire_hit :
    (w : Setting) (r : Request) (p : EnvironmentPool) (at : ℕ) (env : CachedEnvironment)
    → lookup (get_environment_key r p.platform) p.environments ≡ some at
    → get_elem? p.store at ≡ some env
    → is_warm_or_ready env.state ≡ true
    → (is_valid_for_runtime w.disk env.path r.runtime_type && w.disk.is_healthy env.path) ≡ true
    → acquire_environment w r p ≡ (
      record p {
        store =
            update at
              (λ e. record e { state = active; use_count = e.use_count + 1; last_used = w.now })
              p.store;
      },
      hit at,
    )
unfolding acquire_environment reuse
acquire_hit w r p at env h k s v = ground (arith, h, k, s, v)

-- An acquisition that is answered from the pool, with the release after it, adds the size of the
-- environment to the disk space in use once more, though its directory was counted at the release
-- before.
pub disk-acquire-release :
    (v w : Setting) (keep_warm : Bool) (r : Request) (p : EnvironmentPool) (at : ℕ)
    (env : CachedEnvironment)
    → lookup (get_environment_key r p.platform) p.environments ≡ some at
    → get_elem? p.store at ≡ some env
    → is_warm_or_ready env.state ≡ true
    → (is_valid_for_runtime v.disk env.path r.runtime_type && v.disk.is_healthy env.path) ≡ true
    → ((acquire_environment v r p).1 ≡ hit at)
      × ((release_environment w keep_warm at (acquire_environment v r p).0).current_disk_bytes
          ≡ p.current_disk_bytes + w.disk.size env.path)
disk-acquire-release v w keep_warm r p at env h k s valid =
    let taken : CachedEnvironment → CachedEnvironment =
      λ e. record e { state = active; use_count = e.use_count + 1; last_used = v.now } in
    let q : EnvironmentPool = record p { store = update at taken p.store } in
    rw (acquire_hit v r p at env h k s valid) (
      refl,
      disk-release w keep_warm at q (taken env) (get_elem?-update at taken p.store env k) refl,
    )
