-- ===== src/Environments/Manager.antt =====
-- `ExecuteWithMetrics`: one run of plugin code in an environment of the pool. The language runtime is
-- an argument: how its set-up, its installation of dependencies and its run end.
use Prim.Native.String.{◌++◌}
use sentrazero.Base.{
  ℕ, ◌&&◌, String, Bool, true, false, not, Option, none, some, if◌then◌else◌, ltb, get_elem?, [],
  ◌∷◌,
}
use sentrazero.Base.Texts.{contains_any}
use sentrazero.Environments.{EnvironmentPool, update}
use sentrazero.Environments.Keys.{Request}
use sentrazero.Environments.Pool.{
  Setting, hit, created, waits, no_path, exhausted, disk_full, cancelled, acquire_environment,
  invalidate_environment, release_environment,
}

-- An error's message, where there is one. `output` is the run's success and error message, none where it
-- yields no output.
pub record Language : Type 0 where
  pub registered : Bool
  pub setup : Option String
  pub has_dependencies : Bool
  pub install : Option String
  pub output : Option (Bool × String)
  pub run_error : Option String

pub record Execution : Type 0 where
  pub success : Bool
  pub error : String
  pub failure_type : String
  pub cache_hit : Bool
  pub failed : Bool

abbrev pub failure : String → Execution
failure message = record {
  success = false;
  error = message;
  failure_type = "";
  cache_hit = false;
  failed = true;
}

-- `classifyError` of the manager; the search is `strings.Contains`, written out.
unfoldable pub failure_type_of : Option String → String
failure_type_of none = ""
failure_type_of (some message) =
    if contains_any message ("connection refused" ∷ "timeout" ∷ "network" ∷ [])
    then "infra_error"
    else if contains_any message
        ("no module" ∷ "cannot find module" ∷ "dependency" ∷ "install" ∷ [])
    then "dependency_error"
    else if contains_any message ("syntax" ∷ "indentation" ∷ "nameerror" ∷ "typeerror" ∷ [])
    then "user_code_error"
    else if contains_any message ("memory" ∷ "oom" ∷ [])
    then "memory_error"
    else "unknown_error"

abbrev pub output_of : Language → Bool × String
output_of l = elim l.output [
  | none ↦ (false, "runtime execution returned nil output")
  | some output ↦ output
]

abbrev pub is_some : Option String → Bool
is_some none = false
is_some (some message) = true

-- `close(env.readych)`, once.
abbrev pub signal : ℕ → EnvironmentPool → EnvironmentPool
signal at p = record p { store = update at (λ e. record e { signalled = true }) p.store }

abbrev pub use_count_at : ℕ → EnvironmentPool → ℕ
use_count_at at p = elim (get_elem? p.store at) [ none ↦ 0 | some env ↦ env.use_count ]

-- From the run on.
unfoldable pub run_in : Setting → Language → ℕ → EnvironmentPool → EnvironmentPool × Execution
unfolding failure_type_of invalidate_environment release_environment update
run_in w l at p =
    let success = (output_of l).0 in
    let broken = is_some l.run_error && not success in
    let q = if broken then invalidate_environment at p else p in
    (
      signal at (release_environment w success at q),
      record {
        success = success;
        error = (output_of l).1;
        failure_type = if broken then failure_type_of l.run_error else "";
        cache_hit = ltb 1 (use_count_at at p);
        failed = false;
      },
    )

unfoldable pub install_and_run :
    Setting → Language → ℕ → EnvironmentPool → EnvironmentPool × Execution
unfolding run_in invalidate_environment
install_and_run w l at p =
    if l.has_dependencies
    then elim l.install [
      | none ↦ run_in w l at p
      | some message ↦
          (invalidate_environment at p, failure ("dependency installation failed: " ++ message))
    ]
    else run_in w l at p

unfoldable pub use_environment :
    Setting → Language → ℕ → EnvironmentPool → EnvironmentPool × Execution
unfolding install_and_run invalidate_environment
use_environment w l at p = elim l.setup [
  | none ↦ install_and_run w l at p
  | some message ↦ (invalidate_environment at p, failure ("setup failed: " ++ message))
]

-- What a call does once its acquisition has ended; one that still waits yields nothing.
unfoldable pub execute_with_metrics :
    Setting → Setting → Language → Request → EnvironmentPool → EnvironmentPool × Option Execution
unfolding acquire_environment use_environment
execute_with_metrics w after l r p =
    let acquired = acquire_environment w r p in
    if not l.registered
    then (p, some (failure "runtime type not registered"))
    else elim acquired.1 [
      | hit at ↦ (
        (use_environment after l at acquired.0).0,
        some (use_environment after l at acquired.0).1,
      )
      | created at ↦ (
        (use_environment after l at acquired.0).0,
        some (use_environment after l at acquired.0).1,
      )
      | waits at ↦ (acquired.0, none)
      | no_path ↦ (acquired.0, some (failure "failed to create environment path"))
      | exhausted ↦ (acquired.0, some (failure "environment pool exhausted"))
      | disk_full ↦ (acquired.0, some (failure "environment pool disk limit exceeded"))
      | cancelled ↦ (acquired.0, some (failure "context ended"))
    ]
