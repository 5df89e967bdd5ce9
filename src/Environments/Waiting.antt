-- ===== src/Environments/Waiting.antt =====
-- Who is told that an environment is ready.
use sentrazero.Base.{
  ℕ, ◌≡◌, inl, inr, Bool-cases, refl, Bool, true, false, not, ◌&&◌, ◌||◌, none, some, get_elem?,
  if◌then◌else◌, arith, ltb, ◌-◌,
}
use sentrazero.Environments.{
  CachedEnvironment, EnvironmentPool, is_cleaning, set_state, invalid, warm, ready,
}
use sentrazero.Environments.Accounting.{get_elem?-update}
use sentrazero.Environments.Pool.{Setting, release_environment, invalidate_environment}
use sentrazero.Environments.Manager.{
  Language, use_environment, install_and_run, run_in, output_of, is_some, signal,
}

-- Is the channel of the environment closed.
abbrev pub signalled_at : ℕ → EnvironmentPool → Bool
signalled_at at p = elim (get_elem? p.store at) [ none ↦ false | some env ↦ env.signalled ]

-- The set-up and the installation of the dependencies succeed.
abbrev pub is_prepared : Language → Bool
is_prepared l = not (is_some l.setup) && (not l.has_dependencies || not (is_some l.install))

get_elem?-invalidate :
    (at : ℕ) (p : EnvironmentPool) (env : CachedEnvironment)
    → get_elem? p.store at ≡ some env
    → get_elem? (invalidate_environment at p).store at ≡ some (set_state invalid env)
unfolding invalidate_environment
get_elem?-invalidate at p env h =
    ground (arith, h, get_elem?-update at (set_state invalid) p.store env h)

get_elem?-release :
    (w : Setting) (keep_warm : Bool) (at : ℕ) (p : EnvironmentPool) (env : CachedEnvironment)
    → get_elem? p.store at ≡ some env
    → (e : CachedEnvironment) × (get_elem? (release_environment w keep_warm at p).store at ≡ some e)
unfolding release_environment
get_elem?-release w keep_warm at p env h =
    let state = if keep_warm && ltb (w.now - env.last_used) p.warm_timeout then warm else ready in
    let released : CachedEnvironment → CachedEnvironment =
      λ e. record e { state = state; last_used = w.now } in
    elim (Bool-cases (is_cleaning env.state)) [
      | inl e ↦ (env, ground (arith, h, e))
      | inr e ↦ (
        released env,
        rw (h, release_environment) (rw e (get_elem?-update at released p.store env h)),
      )
    ]

signalled-signal :
    (at : ℕ) (p : EnvironmentPool) (env : CachedEnvironment)
    → get_elem? p.store at ≡ some env
    → signalled_at at (signal at p) ≡ true
signalled-signal at p env h =
    let closed : CachedEnvironment → CachedEnvironment = λ e. record e { signalled = true } in
    rw (get_elem?-update at closed p.store env h, signalled_at) refl

signalled-run_in :
    (w : Setting) (l : Language) (at : ℕ) (p : EnvironmentPool) (env : CachedEnvironment)
    → get_elem? p.store at ≡ some env
    → signalled_at at (run_in w l at p).0 ≡ true
unfolding run_in
signalled-run_in w l at p env h =
    let broken = is_some l.run_error && not (output_of l).0 in
    let kept : (e : CachedEnvironment) × (get_elem?
            (if broken then invalidate_environment at p else p).store at
          ≡ some e) =
      elim (Bool-cases broken) [
        | inl e ↦ (set_state invalid env, rw e (get_elem?-invalidate at p env h))
        | inr e ↦ (env, rw e h)
      ] in
    let q = if broken then invalidate_environment at p else p in
    let released = get_elem?-release w (output_of l).0 at q kept.0 kept.1 in
    signalled-signal at (release_environment w (output_of l).0 at q) released.0 released.1

signalled-invalidate :
    (at : ℕ) (p : EnvironmentPool) (env : CachedEnvironment)
    → get_elem? p.store at ≡ some env
    → signalled_at at (invalidate_environment at p) ≡ env.signalled
signalled-invalidate at p env h = rw (get_elem?-invalidate at p env h, signalled_at) refl

-- The callers that wait for an environment are told of its end exactly if its set-up and the installation of its
-- dependencies succeed; after a failure of one of them they wait on, until their time or their
-- context is over.
pub use_environment-signals :
    (w : Setting) (l : Language) (at : ℕ) (p : EnvironmentPool) (env : CachedEnvironment)
    → get_elem? p.store at ≡ some env
    → env.signalled ≡ false
    → signalled_at at (use_environment w l at p).0 ≡ is_prepared l
unfolding use_environment install_and_run
use_environment-signals w l at p env h f =
    ground (arith, f, signalled-run_in w l at p env h, signalled-invalidate at p env h)
