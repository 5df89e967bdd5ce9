-- ===== src/Environments/Config.antt =====
-- The construction of the pool, with the variables of the environment.
use sentrazero.Base.{◌==◌, String, Option, none, some, [], if◌then◌else◌}
use sentrazero.Base.Int.{ℤ, pos, is_positive, pos_part}
use sentrazero.Environments.{EnvironmentPool}

-- `parse_int` is `strconv.Atoi` and `strconv.ParseInt`, `parse_duration` is `time.ParseDuration`.
pub record Variables : Type 0 where
  pub getenv : String → String
  pub parse_int : String → Option ℤ
  pub parse_duration : String → Option ℤ

pub record PoolConfig : Type 0 where
  pub max_environments : ℤ
  pub warm_timeout : ℤ
  pub sandbox_base : String
  pub max_disk_bytes : ℤ

-- A value that parses, of whatever sign, and the default otherwise.
unfoldable pub read_or : Variables → (String → Option ℤ) → String → ℤ → ℤ
read_or env parse name default =
    if env.getenv name == ""
    then default
    else elim (parse (env.getenv name)) [ none ↦ default | some value ↦ value ]

unfoldable pub get_env_int : Variables → String → ℤ → ℤ
unfolding read_or
get_env_int env = read_or env env.parse_int

unfoldable pub get_env_duration : Variables → String → ℤ → ℤ
unfolding read_or
get_env_duration env = read_or env env.parse_duration

abbrev pub or_default : ℤ → ℤ → ℤ
or_default value default = if is_positive value then value else default

-- The pool before its eviction loop. A maximum that is not positive admits nothing, a disk limit that is not
-- positive is none, and a warm timeout that is not positive keeps nothing warm; each is 0 here, and an
-- eviction reads 30 minutes for a timeout of 0.
unfoldable pub new_environment_pool_with_config : Variables → String → PoolConfig → EnvironmentPool
unfolding get_env_int get_env_duration
new_environment_pool_with_config env platform cfg = record {
  store = [];
  environments = [];
  max_environments =
      pos_part (or_default cfg.max_environments (get_env_int env "ENVIRONMENT_MAX_COUNT" (pos 50)));
  warm_timeout = pos_part (
      or_default cfg.warm_timeout
        (get_env_duration env "ENVIRONMENT_WARM_TIMEOUT" (pos 1_800_000_000_000)));
  sandbox_base = if cfg.sandbox_base == "" then "/tmp/sentra-runtime" else cfg.sandbox_base;
  platform = platform;
  max_disk_bytes = pos_part (
      or_default cfg.max_disk_bytes
        (get_env_int env "ENVIRONMENT_MAX_DISK_BYTES" (pos 10_737_418_240)));
  current_disk_bytes = 0;
  evicting = [];
  removed = [];
}

-- `time.NewTicker` panics on a period that is not positive, in the goroutine of the eviction loop.
unfoldable pub eviction_interval : Variables → ℤ
unfolding get_env_duration
eviction_interval env = get_env_duration env "ENVIRONMENT_EVICTION_INTERVAL" (pos 300_000_000_000)
