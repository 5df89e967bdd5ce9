-- ===== src/Realtime/Environment.antt =====
-- The settings that the environment can bring about.
use sentrazero.Base.{ℕ, ◌*◌, ◌≤◌, ◌<◌, String, arith}
use sentrazero.Realtime.Intervals.{
  Settings, Environment, Ratio, duration_or, ratio_or, above_one, at_most_half,
  load_intervals_from_env,
}

-- Every period is positive, the multiplier is above one and the jitter is at most a half.
pub record IsSound (s : Settings) : Type 0 where
  pub polls : 0 < s.poll_interval
  pub starts : 0 < s.min_poll_interval
  pub reposts : 0 < s.post_claim_interval
  pub idles : 0 < s.max_idle_poll_interval
  pub graces : 0 < s.active_grace
  pub grows : s.backoff_multiplier.den < s.backoff_multiplier.num
  pub spreads : 2 * s.poll_jitter.num ≤ s.poll_jitter.den

positive-duration_or :
    (env : Environment) (current : ℕ) (name : String)
    → 0 < current
    → 0 < duration_or env current name
unfolding duration_or
positive-duration_or env current name h = ground arith

above_one-ratio_or :
    (env : Environment) (current : Ratio) (name : String)
    → current.den < current.num
    → (ratio_or env above_one current name).den < (ratio_or env above_one current name).num
unfolding ratio_or
above_one-ratio_or env current name h = ground arith

half-ratio_or :
    (env : Environment) (current : Ratio) (name : String)
    → 2 * current.num ≤ current.den
    → 2 * (ratio_or env at_most_half current name).num
      ≤ (ratio_or env at_most_half current name).den
unfolding ratio_or
half-ratio_or env current name h = ground arith

-- Whatever the environment holds, reading it keeps the settings sound: every period stays positive, the
-- multiplier above one and the jitter at most a half.
pub load_intervals-IsSound :
    (env : Environment) (s : Settings) → IsSound s → IsSound (load_intervals_from_env env s)
unfolding load_intervals_from_env
load_intervals-IsSound env s v = record {
  polls = positive-duration_or env s.poll_interval _ v.polls;
  starts = positive-duration_or env s.min_poll_interval _ v.starts;
  reposts = positive-duration_or env s.post_claim_interval _ v.reposts;
  idles = ground (
    arith,
    positive-duration_or env s.max_idle_poll_interval "SENTRA_MAX_POLL_INTERVAL" v.idles,
    positive-duration_or env s.max_idle_poll_interval "SENTRA_MAX_IDLE_POLL_INTERVAL" v.idles,
  );
  graces = positive-duration_or env s.active_grace _ v.graces;
  grows = above_one-ratio_or env s.backoff_multiplier _ v.grows;
  spreads = half-ratio_or env s.poll_jitter _ v.spreads;
}
