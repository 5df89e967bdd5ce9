-- ===== src/Dispatcher/Pool/Acceptance.antt =====
-- A submission keeps the claims exclusive, accepted or not.
use sentrazero.Base.{
  ℕ, ◌<◌, ◌≡◌, false, none, [], ◌∷◌, ◌++◌, ◌==◌, if◌then◌else◌, has, put, count, length, arith,
  eq_iff, count-put, has-eq-false, Option-cases, inl, inr, length-append,
}
use sentrazero.Dispatcher.Pool.{Pool, JobRequest, release_claims}
use sentrazero.Dispatcher.Pool.Submit.{
  signal_pause, drop_job, enqueue, claim_step, claim_job, submit_job_with_meta,
}
use sentrazero.Dispatcher.Pool.Admission.{accepted-Admits, Admits-accepted}
use sentrazero.Dispatcher.Pool.Rejection.{Untouched, rejected-Untouched}
use sentrazero.Dispatcher.Pool.Claims.{IsExclusive, job_ids-append, step_ids-append}

-- What a submission never changes.
record SameWorkers (p q : Pool) : Type 0 where
  in_flight : q.in_flight ≡ p.in_flight
  queue_cap : q.queue_cap ≡ p.queue_cap
  idle : q.idle ≡ p.idle
  active_workers : q.active_workers ≡ p.active_workers

enqueue-SameWorkers : (now : ℕ) (req : JobRequest) (p : Pool) → SameWorkers p (enqueue now req p).0
unfolding enqueue signal_pause drop_job release_claims
enqueue-SameWorkers now req p = ground arith

claim_step-SameWorkers :
    (now : ℕ) (req : JobRequest) (p : Pool) → SameWorkers p (claim_step now req p).0
unfolding claim_step
claim_step-SameWorkers now req p = ground (
  arith,
  enqueue-SameWorkers now req p,
  enqueue-SameWorkers now req (record p { active = put req.execution_step_id p.active }),
)

submit-SameWorkers :
    (now : ℕ) (req : JobRequest) (p : Pool) → SameWorkers p (submit_job_with_meta now req p).0
unfolding submit_job_with_meta claim_job
submit-SameWorkers now req p =
    ground (arith, claim_step-SameWorkers now req (record p { running = put req.job_id p.running }))

-- What an accepted submission leaves.
record Accepted (req : JobRequest) (p q : Pool) : Type 0 where
  named : (req.job_id == "") ≡ false
  idle : has req.job_id p.running ≡ false
  free : (req.execution_step_id == "") ≡ false → has req.execution_step_id p.active ≡ false
  running : q.running ≡ put req.job_id p.running
  active :
      q.active
      ≡ (if req.execution_step_id == "" then p.active else put req.execution_step_id p.active)
  queue : q.queue ≡ p.queue ++ req ∷ []
  room : length p.queue < p.queue_cap

-- The claims that a successful `enqueue` leaves alone.
record SameSets (p q : Pool) : Type 0 where
  running : q.running ≡ p.running
  active : q.active ≡ p.active

enqueue-SameSets :
    (now : ℕ) (req : JobRequest) (p : Pool)
    → (enqueue now req p).1 ≡ none
    → SameSets p (enqueue now req p).0
unfolding enqueue signal_pause
enqueue-SameSets now req p h = ground arith

record StepClaimed (req : JobRequest) (p q : Pool) : Type 0 where
  running : q.running ≡ p.running
  active :
      q.active
      ≡ (if req.execution_step_id == "" then p.active else put req.execution_step_id p.active)

claim_step-StepClaimed :
    (now : ℕ) (req : JobRequest) (p : Pool)
    → (claim_step now req p).1 ≡ none
    → StepClaimed req p (claim_step now req p).0
unfolding claim_step
claim_step-StepClaimed now req p h = ground (
  arith,
  enqueue-SameSets now req p,
  enqueue-SameSets now req (record p { active = put req.execution_step_id p.active }),
)

submit-claims :
    (now : ℕ) (req : JobRequest) (p : Pool)
    → (submit_job_with_meta now req p).1 ≡ none
    → StepClaimed req
        (record p { running = put req.job_id p.running })
        (submit_job_with_meta now req p).0
unfolding submit_job_with_meta claim_job
submit-claims now req p h =
    ground (arith, claim_step-StepClaimed now req (record p { running = put req.job_id p.running }))

submit-Accepted :
    (now : ℕ) (req : JobRequest) (p : Pool)
    → (submit_job_with_meta now req p).1 ≡ none
    → Accepted req p (submit_job_with_meta now req p).0
submit-Accepted now req p h =
    let c = accepted-Admits now req p h in
    let k = submit-claims now req p h in
    record {
      named = c.named;
      idle = c.not_running;
      free = c.step_free;
      running = k.running;
      active = k.active;
      queue = (Admits-accepted now req p c).1;
      room = c.room;
    }

Accepted-IsExclusive :
    (req : JobRequest) (p q : Pool)
    → Accepted req p q
    → SameWorkers p q
    → IsExclusive p
    → IsExclusive q
unfolding count
Accepted-IsExclusive req p q a w v = record {
  unnamed = ground (arith, v.unnamed, a.running, a.named, count-put req.job_id "" p.running);
  once = λ j. ground (
    arith,
    v.once j,
    a.running,
    a.idle,
    count-put req.job_id j p.running,
    has-eq-false req.job_id p.running,
    eq_iff req.job_id j,
  );
  held = λ j. ground (
    arith,
    v.held j,
    a.running,
    a.idle,
    a.queue,
    w.in_flight,
    count-put req.job_id j p.running,
    job_ids-append j p.queue (req ∷ []),
    eq_iff req.job_id j,
  );
  step_once = λ s h. ground (
    arith,
    v.step_once s h,
    a.active,
    a.free,
    count-put req.execution_step_id s p.active,
    has-eq-false req.execution_step_id p.active,
    eq_iff req.execution_step_id s,
  );
  step_held = λ s h. ground (
    arith,
    v.step_held s h,
    a.active,
    a.free,
    a.queue,
    w.in_flight,
    count-put req.execution_step_id s p.active,
    step_ids-append s p.queue (req ∷ []),
    eq_iff req.execution_step_id s,
    eq_iff s "",
    eq_iff req.execution_step_id "",
  );
  room = ground (arith, a.room, a.queue, w.queue_cap, length-append p.queue (req ∷ []));
  staffed = ground (arith, v.staffed, w.in_flight, w.idle, w.active_workers);
}

rejected-IsExclusive :
    (p q : Pool) → Untouched p q → SameWorkers p q → IsExclusive p → IsExclusive q
rejected-IsExclusive p q u w v = record {
  unnamed = ground (arith, v.unnamed, u.running "");
  once = λ j. ground (arith, v.once j, u.running j);
  held = λ j. ground (arith, v.held j, u.running j, u.queue, u.in_flight);
  step_once = λ s h. ground (arith, v.step_once s h, u.active s);
  step_held = λ s h. ground (arith, v.step_held s h, u.active s, u.queue, u.in_flight);
  room = ground (arith, v.room, u.queue, w.queue_cap);
  staffed = ground (arith, v.staffed, w.in_flight, w.idle, w.active_workers);
}

pub submit-IsExclusive :
    (now : ℕ) (req : JobRequest) (p : Pool)
    → IsExclusive p
    → IsExclusive (submit_job_with_meta now req p).0
submit-IsExclusive now req p v = elim (Option-cases (submit_job_with_meta now req p).1) [
  | inl e ↦
      Accepted-IsExclusive req p _ (submit-Accepted now req p e) (submit-SameWorkers now req p) v
  | inr (c, e) ↦
      rejected-IsExclusive p _ (rejected-Untouched now req p c e) (submit-SameWorkers now req p) v
]
