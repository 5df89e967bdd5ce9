-- ===== src/Tests/Environments.antt =====
-- A pool with one environment of Python, in each of its states.
use sentrazero.Base.{◌≡◌, ◌≤◌, refl, true, false, none, some, [], ◌∷◌, get_elem?, arith, String}
use sentrazero.Base.Dict.{lookup, occurs}
use sentrazero.Environments.{
  EnvState, ready, active, warm, cleaning, CachedEnvironment, EnvironmentPool, Candidate,
}
use sentrazero.Environments.Keys.{Request, get_environment_key, env_path}
use sentrazero.Environments.Eviction.{evict_one}
use sentrazero.Environments.Pool.{Setting, acquire_environment, created, over_disk}
use sentrazero.Environments.Manager.{Language, use_environment}
use sentrazero.Environments.Sharing.{directory_shared, eviction_removes_successor, has_space}
use sentrazero.Environments.Capacity.{Fits}
use sentrazero.Environments.Histories.{here, next, acquires, Reach-Fits}
use sentrazero.Environments.Waiting.{use_environment-signals, signalled_at, is_prepared}

abbrev python_request : Request
python_request = record {
  org_id = "org-1";
  runtime_type = "python";
  version = "3.12";
  lock_hash = "0123456789abcdef0123456789abcdef";
}

abbrev base : String
base = "/tmp/sentra-runtime"

abbrev in_state : EnvState → CachedEnvironment
in_state state = record {
  id = "0123456789abcdef";
  org_id = "org-1";
  runtime_type = "python";
  runtime_version = "3.12";
  dependency_hash = "0123456789abcdef0123456789abcdef";
  path = env_path python_request base;
  state = state;
  use_count = 1;
  last_used = 0;
  signalled = false;
}

path_of_request :
    env_path python_request base ≡ "/tmp/sentra-runtime/env/org-1/python/0123456789abcdef"
unfolding env_path
path_of_request = refl

abbrev pool_in : EnvState → EnvironmentPool
pool_in state = record {
  store = in_state state ∷ [];
  environments = (get_environment_key python_request "linux", 0) ∷ [];
  max_environments = 50;
  warm_timeout = 1800;
  sandbox_base = base;
  platform = "linux";
  max_disk_bytes = 1000;
  current_disk_bytes = 40;
  evicting = [];
  removed = [];
}

abbrev setting : Setting
setting = record {
  now = 10;
  disk = record {
    is_windows = false;
    exists = λ path. true;
    is_healthy = λ path. true;
    size = λ path. 40;
  };
  makes_path = true;
  drained = 0;
  drained_again = 0;
}

found :
    (state : EnvState)
    → lookup (get_environment_key python_request "linux") (pool_in state).environments ≡ some 0
unfolding lookup get_environment_key
found state = refl

space : (state : EnvState) → has_space (pool_in state) ≡ true
unfolding over_disk
space state = refl

abbrev candidate : Candidate
candidate = record {
  key = get_environment_key python_request "linux";
  path = env_path python_request base;
  size = 40;
  env = 0;
}

directory_shared_example :
    ((acquire_environment setting python_request (pool_in active)).1 ≡ created 1)
    × (lookup
          (get_environment_key python_request "linux")
          (acquire_environment setting python_request (pool_in active)).0.environments
        ≡ some 1)
    × (get_elem? (acquire_environment setting python_request (pool_in active)).0.store 0
        ≡ some (in_state active))
    × ((b : CachedEnvironment) × (get_elem?
            (acquire_environment setting python_request (pool_in active)).0.store
            1
          ≡ some b)
        × (b.path ≡ env_path python_request base))
directory_shared_example =
    directory_shared setting python_request (pool_in active) 0 (in_state active) (found active) refl
      refl refl refl (space active)

eviction_removes_successor_example :
    ((acquire_environment setting python_request (pool_in cleaning)).1 ≡ created 1)
    × (lookup
          (get_environment_key python_request "linux")
          (evict_one candidate
            (acquire_environment setting python_request (pool_in cleaning)).0).environments
        ≡ none)
    × ((b : CachedEnvironment) × (get_elem?
            (acquire_environment setting python_request (pool_in cleaning)).0.store
            1
          ≡ some b)
        × ((evict_one candidate
              (acquire_environment setting python_request (pool_in cleaning)).0).removed
            ≡ b.path ∷ (acquire_environment setting python_request (pool_in cleaning)).0.removed))
eviction_removes_successor_example =
    eviction_removes_successor setting python_request (pool_in cleaning) 0 40 (in_state cleaning)
      (found cleaning) refl refl refl refl (space cleaning)

one_entry : occurs (get_environment_key python_request "linux") (pool_in ready).environments ≤ 1
unfolding occurs get_environment_key
one_entry = omega arith

Reach-Fits_example : Fits 50 50 (acquire_environment setting python_request (pool_in warm)).0
Reach-Fits_example =
    Reach-Fits 50 (pool_in warm) (acquire_environment setting python_request (pool_in warm)).0
      (next here (acquires setting python_request)) record { maximum = refl; bound = omega arith }

abbrev broken_setup : Language
broken_setup = record {
  registered = true;
  setup = some "no interpreter";
  has_dependencies = true;
  install = none;
  output = none;
  run_error = none;
}

use_environment-signals_example :
    signalled_at 0 (use_environment setting broken_setup 0 (pool_in active)).0
    ≡ is_prepared broken_setup
use_environment-signals_example =
    use_environment-signals setting broken_setup 0 (pool_in active) (in_state active) refl refl
