-- ===== src/Environments.antt =====
-- cmd/agent/runtime/v2/manager.go: the pool of environments that plugin code runs in.
-- The pool maps keys to environments by pointer, and callers keep their pointer after its entry is gone: the
-- environments stand in a store, and a pointer is a position in it.
pub mod Keys
pub mod Validity
pub mod Config
pub mod Metrics
pub mod Eviction
pub mod Pool
pub mod Manager
pub mod Sharing
pub mod Capacity
pub mod Histories
pub mod Accounting
pub mod Waiting
use sentrazero.Base.{
  ℕ, zero, suc, ◌+◌, ◌-◌, ◌&&◌, ◌||◌, ◌==◌, String, Bool, true, false, not, Option, none, some,
  List, [], ◌∷◌, ltb, leb, if◌then◌else◌, get_elem?,
}
use sentrazero.Base.Dict.{Dict}

pub data EnvState : Type 0 where
  pending ready active warm invalid cleaning : EnvState

pub record CachedEnvironment : Type 0 where
  pub id : String
  pub org_id : String
  pub runtime_type : String
  pub runtime_version : String
  pub dependency_hash : String
  pub path : String
  pub state : EnvState
  pub use_count : ℕ
  pub last_used : ℕ
  -- is `readych` closed
  pub signalled : Bool

-- An environment that an eviction has marked, until its goroutine has run.
pub record Candidate : Type 0 where
  pub key : String
  pub path : String
  pub size : ℕ
  pub env : ℕ

pub record EnvironmentPool : Type 0 where
  pub store : List CachedEnvironment
  pub environments : Dict ℕ
  pub max_environments : ℕ
  pub warm_timeout : ℕ
  pub sandbox_base : String
  pub platform : String
  pub max_disk_bytes : ℕ
  pub current_disk_bytes : ℕ
  -- the goroutines of evictions that have not run, and the directories removed, the latest first
  pub evicting : List Candidate
  pub removed : List String

-- What the file system answers: does a path exist, is a directory healthy, and how large is it; and
-- whether the system is Windows.
pub record FileSystem : Type 0 where
  pub is_windows : Bool
  pub exists : String → Bool
  pub is_healthy : String → Bool
  pub size : String → ℕ

-- What the pointer shows.
abbrev pub deref : ℕ → EnvironmentPool → Option CachedEnvironment
deref at p = get_elem? p.store at

abbrev pub state_at : ℕ → List CachedEnvironment → EnvState
state_at at store = elim (get_elem? store at) [ none ↦ invalid | some env ↦ env.state ]

-- A write through the pointer.
unfoldable pub update :
    ℕ → (CachedEnvironment → CachedEnvironment) → List CachedEnvironment → List CachedEnvironment
update at f [] = []
update zero f (env ∷ store) = f env ∷ store
update (suc at) f (env ∷ store) = env ∷ update at f store

abbrev pub is_warm_or_ready : EnvState → Bool
is_warm_or_ready warm = true
is_warm_or_ready ready = true
is_warm_or_ready _ = false

abbrev pub is_cleaning : EnvState → Bool
is_cleaning cleaning = true
is_cleaning _ = false

abbrev pub set_state : EnvState → CachedEnvironment → CachedEnvironment
set_state state env = record env { state = state }
