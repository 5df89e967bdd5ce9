-- ===== src/Realtime/Cadence.antt =====
-- How often the adaptive loop claims jobs, and how an idle one backs off.
use sentrazero.Base.{
  ℕ, suc, ◌*◌, ◌%◌, ◌^◌, ◌≤◌, ◌≡◌, ◌≢◌, ◌⊎◌, refl, ◌∙◌, ap, Bool, true, false, ◌&&◌, none, List, [],
  ◌∷◌, length, ltb, if◌then◌else◌, arith,
}
use native.Mathlib.Nat.{mul-le-mul_left, one-le-pow, pow-suc}
use sentrazero.Dispatcher.Pool.{Pool}
use sentrazero.Dispatcher.Pool.Workers.{active_jobs_count, queue_length}
use sentrazero.Realtime.Intervals.{Settings, jittered, backed_off, in_grace, next_poll_interval}
use sentrazero.Realtime.Offers.{offered, has_valid_job, alternatives}
use sentrazero.Realtime.Client.{
  PollingClient, PollAnswer, unsent, unanswered, undecoded, refused, answered, World,
  fetch_new_jobs, take_jobs, offer_all,
}
use sentrazero.Realtime.Bounds.{fetch-Paces}
use sentrazero.Realtime.Loops.{
  Loop, Poll, claims, next_claim, poll, reschedule, refresh_activity, adaptive_tick, adaptive_run,
}

ceiling_polls-tick : (e : Poll) (l : Loop) → (adaptive_tick e l).ceiling_polls ≡ (next_claim l).1
unfolding adaptive_tick reschedule poll
ceiling_polls-tick e l = refl

claimed_or_counted :
    (l : Loop)
    → ((next_claim l).0 ≡ true)
      ⊎ (((next_claim l).1 ≡ suc l.ceiling_polls) × (suc l.ceiling_polls % 3 ≢ 0))
unfolding next_claim claims
claimed_or_counted l = ground arith

-- Of any three rounds of the adaptive loop that follow each other, one asks the backend for jobs,
-- whatever happens between them.
pub one_claim_in_three :
    (e f : Poll) (l : Loop)
    → ((next_claim l).0 ≡ true)
      ⊎ ((next_claim (adaptive_tick e l)).0 ≡ true)
      ⊎ ((next_claim (adaptive_tick f (adaptive_tick e l))).0 ≡ true)
one_claim_in_three e f l =
    let one_second = adaptive_tick e l in
    let third = adaptive_tick f one_second in
    ground (
      arith,
      claimed_or_counted l,
      claimed_or_counted one_second,
      claimed_or_counted third,
      ceiling_polls-tick e l,
      ceiling_polls-tick f one_second,
    )

-- The poll brings no job.
abbrev pub brings_none : PollAnswer → Bool
brings_none (answered true (j ∷ jobs)) = false
brings_none _ = true

abbrev pub none_brought : List Poll → Bool
none_brought [] = true
none_brought (e ∷ polls) = brings_none e.answer && none_brought polls

-- Nothing keeps the loop on its short interval: no job was seen yet, none runs and none is queued.
abbrev pub IsIdle : Loop → Type 0
IsIdle l = (l.last_job_time ≡ none) × (active_jobs_count l.pool ≡ 0) × (queue_length l.pool ≡ 0)

-- No jitter, and a multiplier of two.
abbrev pub IsDoubling : Settings → Type 0
IsDoubling s =
    (s.poll_jitter.num ≡ 0) × (s.backoff_multiplier.num ≡ 2) × (s.backoff_multiplier.den ≡ 1)

fetch_none :
    (w : World) (claim : Bool) (answer : PollAnswer) (c : PollingClient) (p : Pool)
    → brings_none answer ≡ true
    → ((fetch_new_jobs w claim answer (c, p)).1 ≡ 0)
      × ((fetch_new_jobs w claim answer (c, p)).0.1 ≡ p)
unfolding fetch_new_jobs take_jobs offered has_valid_job alternatives offer_all
fetch_none w claim unsent c p h = ground arith
fetch_none w claim unanswered c p h = ground arith
fetch_none w claim undecoded c p h = ground arith
fetch_none w claim (refused status) c p h = ground arith
fetch_none w claim (answered true []) c p h = ground arith
fetch_none w claim (answered true (j ∷ jobs)) c p h = cc
fetch_none w claim (answered false jobs) c p h = ground arith

tick-IsIdle :
    (e : Poll) (l : Loop)
    → brings_none e.answer ≡ true
    → IsDoubling l.client.settings
    → IsIdle l
    → (IsIdle (adaptive_tick e l))
      × ((adaptive_tick e l).client.settings ≡ l.client.settings)
      × ((adaptive_tick e l).client.current_interval
          ≡ backed_off l.client.settings l.client.current_interval)
unfolding adaptive_tick reschedule poll refresh_activity next_poll_interval in_grace jittered
tick-IsIdle e l h d v =
    let fetched = fetch_none e.world (next_claim l).0 e.answer l.client l.pool h in
    let kept = fetch-Paces e.world (next_claim l).0 e.answer l.client l.pool in
    ground (arith, fetched, kept)

abbrev pub capped : ℕ → ℕ → ℕ
capped ceiling n = if ltb ceiling n then ceiling else n

doubled :
    (s : Settings) (current : ℕ)
    → IsDoubling s
    → backed_off s current ≡ capped s.max_idle_poll_interval (2 * current)
unfolding backed_off
doubled s current d = ground (arith, d)

capped-capped :
    (ceiling n k : ℕ) → 1 ≤ k → capped ceiling (capped ceiling n * k) ≡ capped ceiling (n * k)
capped-capped ceiling n k h = ground (arith, mul-le-mul_left ceiling h, mul-le-mul_left n h)

capped_twice :
    (ceiling n k : ℕ)
    → capped ceiling (capped ceiling (2 * n) * 2 ^ k) ≡ capped ceiling (n * 2 ^ suc k)
capped_twice ceiling n k =
    let same : 2 * n * 2 ^ k ≡ n * 2 ^ suc k = grind (arith, pow-suc 2 k) in
    capped-capped ceiling (2 * n) (2 ^ k) (one-le-pow k 2 (omega arith)) ∙ ap (capped ceiling) same

same-IsDoubling : {s t : Settings} → t ≡ s → IsDoubling s → IsDoubling t
same-IsDoubling same d = rw same d

below : {ceiling other next : ℕ} (n : ℕ) → other ≡ ceiling → next ≡ capped ceiling n → next ≤ other
below n same e = ground (arith, same, e)

extended :
    {ceiling other next r : ℕ} (current k : ℕ)
    → other ≡ ceiling
    → next ≡ capped ceiling (2 * current)
    → r ≡ capped other (next * 2 ^ k)
    → r ≡ capped ceiling (current * 2 ^ suc k)
extended {ceiling} current k same e later = later ∙ rw same (rw e (capped_twice ceiling current k))

-- Without jitter and with a multiplier of two, an idle adaptive loop that starts at or below its
-- ceiling waits, after any number of polls that bring no job, the start doubled that often, cut at the
-- ceiling.
pub adaptive_run_idle :
    (polls : List Poll) (l : Loop)
    → none_brought polls ≡ true
    → IsDoubling l.client.settings
    → IsIdle l
    → l.client.current_interval ≤ l.client.settings.max_idle_poll_interval
    → (adaptive_run polls l).client.current_interval
      ≡ capped l.client.settings.max_idle_poll_interval
          (l.client.current_interval * 2 ^ length polls)
unfolding adaptive_run
adaptive_run_idle [] l h d v low = ground (arith, low)
adaptive_run_idle (e ∷ polls) l h d v low =
    let now = tick-IsIdle e l (ground (arith, h)) d v in
    let ceiling : (adaptive_tick e l).client.settings.max_idle_poll_interval
        ≡ l.client.settings.max_idle_poll_interval =
      ap (λ s. s.max_idle_poll_interval) now.1 in
    let next = now.2 ∙ doubled l.client.settings l.client.current_interval d in
    extended l.client.current_interval (length polls) ceiling next (
      adaptive_run_idle polls (adaptive_tick e l) (ground (arith, h)) (same-IsDoubling now.1 d)
        now.0 (below _ ceiling next))
