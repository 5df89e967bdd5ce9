-- ===== src/Dispatcher/Pool/Exclusive.antt =====
-- No job and no execution step is held twice, in any history of the pool.
use sentrazero.Base.{
  ℕ, ◌+◌, ◌≤◌, ◌≡◌, String, Bool, true, false, [], ◌++◌, ◌==◌, if◌then◌else◌, count, length, arith,
}
use sentrazero.Base.Int.{ℤ}
use sentrazero.Dispatcher.Pool.{Pool}
use sentrazero.Dispatcher.Pool.Workers.{
  set_max_workers, at_least_one, start_workers, leave, stop_worker_pool, set_backpressure,
  pause_job_processing, resume_job_processing, init_worker_pool,
}
use sentrazero.Dispatcher.Pool.Acceptance.{submit-IsExclusive}
use sentrazero.Dispatcher.Pool.Claims.{IsExclusive, job_ids, step_ids}
use sentrazero.Dispatcher.Pool.Steps.{
  Step, submits, receives, works, resizes, leaves, Reach, here, next,
}
use sentrazero.Dispatcher.Pool.Workforce.{
  signal_resize-IsExclusive, resize_to-IsExclusive, receive-IsExclusive, work-Finished,
  Finished-IsExclusive,
}

either : (b : Bool) {p q : Pool} → IsExclusive p → IsExclusive q → IsExclusive (if b then p else q)
either true hp hq = hp
either false hp hq = hq

-- Every step keeps the claims exclusive.
pub Step-IsExclusive : {p q : Pool} → Step p q → IsExclusive p → IsExclusive q
unfolding set_max_workers stop_worker_pool leave set_backpressure pause_job_processing
    resume_job_processing
Step-IsExclusive (submits now req p) v = submit-IsExclusive now req p v
Step-IsExclusive (receives req rest p e h) v = receive-IsExclusive req rest p e h v
Step-IsExclusive (works a req before after p e) v =
    Finished-IsExclusive req before after p _ e (work-Finished a req (before ++ after) p) v
Step-IsExclusive (resizes n p) v = resize_to-IsExclusive (at_least_one n) p v
Step-IsExclusive (leaves p) v = either p.shut_down (signal_resize-IsExclusive p v) v
Step-IsExclusive _ v = record {
  unnamed = v.unnamed;
  once = v.once;
  held = v.held;
  step_once = v.step_once;
  step_held = v.step_held;
  room = v.room;
  staffed = v.staffed;
}

Reach-IsExclusive : {p q : Pool} → Reach p q → IsExclusive p → IsExclusive q
Reach-IsExclusive here v = v
Reach-IsExclusive (next r s) v = Step-IsExclusive s (Reach-IsExclusive r v)

-- A pool with no worker and no claim, as the package's variables are at start.
pub record IsUnused (p : Pool) : Type 0 where
  pub running : p.running ≡ []
  pub active : p.active ≡ []
  pub in_flight : p.in_flight ≡ []
  pub idle : p.idle ≡ 0
  pub active_workers : p.active_workers ≡ 0

pub init-IsExclusive :
    (n : ℤ) (num_cpu : ℕ) (p : Pool) → IsUnused p → IsExclusive (init_worker_pool n num_cpu p)
unfolding init_worker_pool start_workers count
init-IsExclusive n num_cpu p u = record {
  unnamed = ground (arith, u.running);
  once = λ j. ground (arith, u.running);
  held = λ j. ground (arith, u.running, u.in_flight);
  step_once = λ s h. ground (arith, u.active);
  step_held = λ s h. ground (arith, u.active, u.in_flight);
  room = omega arith;
  staffed = ground (arith, u.in_flight, u.idle, u.active_workers);
}

-- In every history of a pool, from its initialisation with no job and no worker on, no job id
-- stands twice among the queued and the in-flight jobs, and no execution step that is not empty
-- does; the queue keeps within its capacity, and the live workers are the idle ones and one for
-- each job in flight.
pub never_held_twice :
    (n : ℤ) (num_cpu : ℕ) (p q : Pool) (j s : String)
    → IsUnused p
    → (s == "") ≡ false
    → Reach (init_worker_pool n num_cpu p) q
    → (count j (job_ids q.queue) + count j (job_ids q.in_flight) ≤ 1)
      × (count s (step_ids q.queue) + count s (step_ids q.in_flight) ≤ 1)
      × (length q.queue ≤ q.queue_cap)
      × (q.active_workers ≡ q.idle + length q.in_flight)
never_held_twice n num_cpu p q j s u h r =
    let v = Reach-IsExclusive r (init-IsExclusive n num_cpu p u) in
    (
      omega (arith, v.held j, v.once j),
      omega (arith, v.step_held s h, v.step_once s h),
      v.room,
      v.staffed,
    )
