-- ===== src/Environments/Metrics.antt =====
-- `GetMetrics`: how many environments of the pool are in which state.
use sentrazero.Base.{ℕ, ◌+◌, Bool, true, false, List, [], ◌∷◌, length, if◌then◌else◌}
use sentrazero.Base.Dict.{Dict}
use sentrazero.Environments.{
  EnvState, ready, active, warm, CachedEnvironment, EnvironmentPool, state_at,
}

pub record PoolMetrics : Type 0 where
  pub total_environments : ℕ
  pub warm_environments : ℕ
  pub ready_environments : ℕ
  pub active_environments : ℕ

abbrev is_warm : EnvState → Bool
is_warm warm = true
is_warm _ = false

abbrev is_ready : EnvState → Bool
is_ready ready = true
is_ready _ = false

abbrev is_active : EnvState → Bool
is_active active = true
is_active _ = false

unfoldable pub count_states : (EnvState → Bool) → List CachedEnvironment → Dict ℕ → ℕ
count_states p store [] = 0
count_states p store ((key, at) ∷ entries) =
    (if p (state_at at store) then 1 else 0) + count_states p store entries

unfoldable pub get_metrics : EnvironmentPool → PoolMetrics
unfolding count_states
get_metrics p = record {
  total_environments = length p.environments;
  warm_environments = count_states is_warm p.store p.environments;
  ready_environments = count_states is_ready p.store p.environments;
  active_environments = count_states is_active p.store p.environments;
}
