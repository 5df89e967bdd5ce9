-- ===== src/Dispatcher/Pool/Admission.antt =====
-- What `SubmitJobWithMeta` promises: what a refusal leaves behind, and when a job is accepted.
use sentrazero.Base.{
  ℕ, ◌+◌, ◌<◌, ◌≤◌, ◌≡◌, ◌≢◌, true, false, none, some, [], ◌∷◌, ◌++◌, ◌==◌, has, put, length, arith,
  eq_iff, ◌↔◌, Bool-cases, inl, inr,
}
use sentrazero.Dispatcher.Dedup.{Store}
use sentrazero.Dispatcher.Dedup.Window.{contains-add}
use sentrazero.Dispatcher.Pool.{Pool, JobRequest}
use sentrazero.Dispatcher.Pool.Submit.{
  lacks_execution_id, signal_pause, seen, remember, enqueue, claim_step, claim_job,
  submit_job_with_meta,
}

-- The conditions of an acceptance.
pub record Admits (now : ℕ) (req : JobRequest) (p : Pool) : Type 0 where
  pub ready : p.initialized ≡ true
  pub named : (req.job_id == "") ≡ false
  pub identified : lacks_execution_id req ≡ false
  pub typed : (req.job_type == "") ≡ false
  pub unseen : seen p.dedup req.job_id now ≡ false
  pub not_running : has req.job_id p.running ≡ false
  pub step_free : (req.execution_step_id == "") ≡ false → has req.execution_step_id p.active ≡ false
  pub room : length p.queue < p.queue_cap

enqueue_accepts :
    (now : ℕ) (req : JobRequest) (p : Pool)
    → length p.queue < p.queue_cap
    → ((enqueue now req p).1 ≡ none) × ((enqueue now req p).0.queue ≡ p.queue ++ req ∷ [])
unfolding enqueue signal_pause
enqueue_accepts now req p h = ground arith

enqueue-none :
    (now : ℕ) (req : JobRequest) (p : Pool)
    → (enqueue now req p).1 ≡ none
    → length p.queue < p.queue_cap
unfolding enqueue signal_pause
enqueue-none now req p h = ground arith

-- A claim of the step and a place in the queue.
record Places (req : JobRequest) (p : Pool) : Type 0 where
  free : (req.execution_step_id == "") ≡ false → has req.execution_step_id p.active ≡ false
  room : length p.queue < p.queue_cap

claim_step_accepts :
    (now : ℕ) (req : JobRequest) (p : Pool)
    → Places req p
    → ((claim_step now req p).1 ≡ none) × ((claim_step now req p).0.queue ≡ p.queue ++ req ∷ [])
unfolding claim_step
claim_step_accepts now req p c = elim (Bool-cases (req.execution_step_id == "")) [
  | inl e ↦ rw e (enqueue_accepts now req p c.room)
  | inr e ↦
      rw (e, c.free e)
        (enqueue_accepts now req (record p { active = put req.execution_step_id p.active }) c.room)
]

claim_step-none :
    (now : ℕ) (req : JobRequest) (p : Pool) → (claim_step now req p).1 ≡ none → Places req p
unfolding claim_step
claim_step-none now req p h = record {
  free = λ e. ground arith;
  room = ground (
    arith,
    enqueue-none now req p,
    enqueue-none now req (record p { active = put req.execution_step_id p.active }),
  );
}

claimed : JobRequest → Pool → Pool
claimed req p = record p { running = put req.job_id p.running }

-- A job that meets the conditions of an acceptance is accepted and stands at the end of the queue.
pub Admits-accepted :
    (now : ℕ) (req : JobRequest) (p : Pool)
    → Admits now req p
    → ((submit_job_with_meta now req p).1 ≡ none)
      × ((submit_job_with_meta now req p).0.queue ≡ p.queue ++ req ∷ [])
unfolding submit_job_with_meta claim_job claimed
Admits-accepted now req p c = ground (
  arith,
  claim_step_accepts now req (claimed req p) (record { free = c.step_free; room = c.room }),
)

-- And every accepted job meets them.
pub accepted-Admits :
    (now : ℕ) (req : JobRequest) (p : Pool)
    → (submit_job_with_meta now req p).1 ≡ none
    → Admits now req p
unfolding submit_job_with_meta claim_job claimed
accepted-Admits now req p h = record {
  ready = ground arith;
  named = ground arith;
  identified = ground arith;
  typed = ground arith;
  unseen = ground arith;
  not_running = ground arith;
  step_free = λ e. ground (arith, (claim_step-none now req (claimed req p)));
  room = ground (arith, (claim_step-none now req (claimed req p)));
}

-- A submission is accepted exactly when the pool is initialised, the job's id and type are given,
-- and an execution id unless it scans or merges a dataset, the store does not remember the id,
-- neither the id nor a given execution step is claimed, and the queue has room.
pub submit-accepts_iff :
    (now : ℕ) (req : JobRequest) (p : Pool)
    → ((submit_job_with_meta now req p).1 ≡ none) ↔ Admits now req p
submit-accepts_iff now req p = (accepted-Admits now req p, λ c. (Admits-accepted now req p c).0)

-- The store after an acceptance holds the job.
enqueue-dedup :
    (now : ℕ) (req : JobRequest) (p : Pool)
    → (enqueue now req p).1 ≡ none
    → (enqueue now req p).0.dedup ≡ remember req.job_id now p.dedup
unfolding enqueue signal_pause
enqueue-dedup now req p h = ground arith

claim_step-dedup :
    (now : ℕ) (req : JobRequest) (p : Pool)
    → (claim_step now req p).1 ≡ none
    → (claim_step now req p).0.dedup ≡ remember req.job_id now p.dedup
unfolding claim_step
claim_step-dedup now req p h = ground (
  arith,
  enqueue-dedup now req p,
  enqueue-dedup now req (record p { active = put req.execution_step_id p.active }),
)

submit-dedup :
    (now : ℕ) (req : JobRequest) (p : Pool)
    → (submit_job_with_meta now req p).1 ≡ none
    → (submit_job_with_meta now req p).0.dedup ≡ remember req.job_id now p.dedup
unfolding submit_job_with_meta claim_job claimed
submit-dedup now req p h = ground (arith, claim_step-dedup now req (claimed req p))

-- With a deduplication store, an accepted job id is refused for the whole of its window, whatever
-- has happened to the job since, as long as the store has not been changed.
pub resubmission_refused :
    (now later : ℕ) (req again : JobRequest) (p q : Pool) (s : Store)
    → p.dedup ≡ some s
    → (submit_job_with_meta now req p).1 ≡ none
    → q.dedup ≡ (submit_job_with_meta now req p).0.dedup
    → again.job_id ≡ req.job_id
    → later ≤ now + s.ttl
    → (submit_job_with_meta later again q).1 ≢ none
unfolding seen remember
resubmission_refused now later req again p q s known accepted same id within again_accepted =
    ground (
      arith,
      (accepted-Admits later again q again_accepted).unseen,
      submit-dedup now req p,
      contains-add s req.job_id req.job_id now later,
      eq_iff req.job_id req.job_id,
    )
