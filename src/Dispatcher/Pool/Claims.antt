-- ===== src/Dispatcher/Pool/Claims.antt =====
-- The claims of the pool's jobs, as an invariant.
use sentrazero.Base.{
  ◌+◌, ◌≤◌, ◌≡◌, String, false, List, [], ◌∷◌, ◌++◌, map, ◌==◌, count, length, arith,
}
use sentrazero.Dispatcher.Pool.{Pool, JobRequest}

abbrev pub job_ids : List JobRequest → List String
job_ids = map (λ r. r.job_id)

abbrev pub step_ids : List JobRequest → List String
step_ids = map (λ r. r.execution_step_id)

-- Every job that is queued or in flight holds its claims, each claim has one such holder, the queue
-- keeps within its capacity, and a worker is idle or holds a job.
pub record IsExclusive (p : Pool) : Type 0 where
  pub unnamed : count "" p.running ≡ 0
  pub once : (j : String) → count j p.running ≤ 1
  pub held :
      (j : String) → count j p.running ≡ count j (job_ids p.queue) + count j (job_ids p.in_flight)
  pub step_once : (s : String) → (s == "") ≡ false → count s p.active ≤ 1
  pub step_held :
      (s : String)
      → (s == "") ≡ false
      → count s p.active ≡ count s (step_ids p.queue) + count s (step_ids p.in_flight)
  pub room : length p.queue ≤ p.queue_cap
  pub staffed : p.active_workers ≡ p.idle + length p.in_flight

pub job_ids-append :
    (j : String) (xs ys : List JobRequest)
    → count j (job_ids (xs ++ ys)) ≡ count j (job_ids xs) + count j (job_ids ys)
unfolding count
job_ids-append j [] ys = omega arith
job_ids-append j (x ∷ xs) ys = omega (arith, job_ids-append j xs ys)

pub step_ids-append :
    (j : String) (xs ys : List JobRequest)
    → count j (step_ids (xs ++ ys)) ≡ count j (step_ids xs) + count j (step_ids ys)
unfolding count
step_ids-append j [] ys = omega arith
step_ids-append j (x ∷ xs) ys = omega (arith, step_ids-append j xs ys)
