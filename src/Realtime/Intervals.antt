-- ===== src/Realtime/Intervals.antt =====
-- The polling intervals: loadIntervalsFromEnv, jittered and nextPollInterval.
-- The products of the code are made in float64; here they are exact and cut to a whole number of
-- nanoseconds, as the conversion back to a Duration cuts them.
use sentrazero.Base.{
  ℕ, ◌+◌, ◌-◌, ◌*◌, ◌/◌, ◌^◌, ◌&&◌, ◌||◌, ◌==◌, String, Bool, false, Option, none, some, ltb, leb,
  nat_eq, if◌then◌else◌,
}
use sentrazero.Base.Int.{ℤ, is_positive, pos_part}

-- A finite float64 that is not negative, as a fraction.
pub record Ratio : Type 0 where
  pub num : ℕ
  pub den : ℕ

abbrev pub one_second : ℕ
one_second = 1_000_000_000

pub record Settings : Type 0 where
  pub poll_interval : ℕ
  pub min_poll_interval : ℕ
  pub backoff_multiplier : Ratio
  pub post_claim_interval : ℕ
  pub max_idle_poll_interval : ℕ
  pub poll_jitter : Ratio
  pub active_grace : ℕ

abbrev pub default_settings : Settings
default_settings = record {
  poll_interval = 30 * one_second;
  min_poll_interval = 5 * one_second;
  backoff_multiplier = record { num = 2; den = 1 };
  post_claim_interval = 20 * one_second;
  max_idle_poll_interval = 300 * one_second;
  poll_jitter = record { num = 1; den = 5 };
  active_grace = 120 * one_second;
}

-- `parse_duration` is `time.ParseDuration` in nanoseconds, and `parse_float` is `strconv.ParseFloat`
-- where it yields a finite number that is not negative.
pub record Environment : Type 0 where
  pub getenv : String → String
  pub parse_duration : String → Option ℤ
  pub parse_float : String → Option Ratio

-- A duration that parses and is positive, and the setting as it was otherwise.
unfoldable pub duration_or : Environment → ℕ → String → ℕ
duration_or env current name =
    if env.getenv name == "" then current else elim (env.parse_duration (env.getenv name)) [
      | none ↦ current
      | some d ↦ if is_positive d then pos_part d else current
    ]

unfoldable pub ratio_or : Environment → (Ratio → Bool) → Ratio → String → Ratio
ratio_or env accepts current name =
    if env.getenv name == "" then current else elim (env.parse_float (env.getenv name)) [
      | none ↦ current
      | some r ↦ if accepts r then r else current
    ]

-- `m > 1.0`
abbrev pub above_one : Ratio → Bool
above_one r = ltb r.den r.num

-- `f >= 0 && f <= 0.5`
abbrev pub at_most_half : Ratio → Bool
at_most_half r = leb (2 * r.num) r.den

unfoldable pub load_intervals_from_env : Environment → Settings → Settings
unfolding duration_or ratio_or
load_intervals_from_env env s = record {
  poll_interval = duration_or env s.poll_interval "SENTRA_POLL_INTERVAL";
  min_poll_interval = duration_or env s.min_poll_interval "SENTRA_MIN_POLL_INTERVAL";
  max_idle_poll_interval =
      if env.getenv "SENTRA_MAX_IDLE_POLL_INTERVAL" == ""
      then duration_or env s.max_idle_poll_interval "SENTRA_MAX_POLL_INTERVAL"
      else duration_or env s.max_idle_poll_interval "SENTRA_MAX_IDLE_POLL_INTERVAL";
  post_claim_interval = duration_or env s.post_claim_interval "SENTRA_POST_CLAIM_INTERVAL";
  backoff_multiplier = ratio_or env above_one s.backoff_multiplier "SENTRA_POLL_BACKOFF_MULTIPLIER";
  poll_jitter = ratio_or env at_most_half s.poll_jitter "SENTRA_POLL_JITTER";
  active_grace = duration_or env s.active_grace "SENTRA_ACTIVE_GRACE";
}

-- `rand.Float64()` is a draw below this, divided by it.
abbrev pub draws : ℕ
draws = 2 ^ 53

-- `d * (1 + (2 * u - 1) * pollJitter)`
unfoldable pub jittered : Settings → ℕ → ℕ → ℕ
jittered s draw d =
    if nat_eq s.poll_jitter.num 0 || nat_eq d 0
    then d
    else d
      * (s.poll_jitter.den * draws + 2 * (draw * s.poll_jitter.num) - s.poll_jitter.num * draws)
      / (s.poll_jitter.den * draws)

abbrev pub scaled : Ratio → ℕ → ℕ
scaled r d = d * r.num / r.den

-- `next > maxIdlePollInterval`
unfoldable pub backed_off : Settings → ℕ → ℕ
backed_off s current =
    let next = scaled s.backoff_multiplier current in
    if ltb s.max_idle_poll_interval next then s.max_idle_poll_interval else next

-- `!lastJobTime.IsZero() && time.Since(lastJobTime) < activeGrace`
unfoldable pub in_grace : Settings → ℕ → Option ℕ → Bool
in_grace s now none = false
in_grace s now (some last) = ltb (now - last) s.active_grace

unfoldable pub next_poll_interval : Settings → ℕ → ℕ → ℕ → Option ℕ → ℕ → ℕ
unfolding jittered backed_off in_grace
next_poll_interval s now draw job_count last_job_time current =
    if ltb 0 job_count
    then s.post_claim_interval
    else if ltb 0 s.active_grace && in_grace s now last_job_time
    then s.post_claim_interval
    else jittered s draw (backed_off s current)

-- The backstop of the event-driven loop.
unfoldable pub event_driven_safety : Settings → ℕ → Option ℕ → ℕ
event_driven_safety s now none = s.max_idle_poll_interval
event_driven_safety s now (some last_wakeup) =
    if ltb (now - last_wakeup) (2 * s.max_idle_poll_interval)
    then 2 * s.max_idle_poll_interval
    else s.max_idle_poll_interval
