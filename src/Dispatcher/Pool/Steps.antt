-- ===== src/Dispatcher/Pool/Steps.antt =====
-- The pool as a transition system: submissions, workers that receive and finish jobs, resizes, the
-- shutdown and whatever the store of seen jobs does, in any order. A submission is one step: the code
-- takes the mutex once for each claim, so two submissions can also interleave between their claims,
-- and a worker can receive a job before its submission has noted it in the store; neither is modelled.
-- A whole execution is one step too, at the end of which its claims are released.
use sentrazero.Base.{ℕ, ◌<◌, ◌≡◌, Option, List, ◌∷◌, ◌++◌, Bool}
use sentrazero.Base.Int.{ℤ}
use sentrazero.Dispatcher.Dedup.{Store}
use sentrazero.Dispatcher.Pool.{Pool, JobRequest}
use sentrazero.Dispatcher.Pool.Submit.{submit_job_with_meta}
use sentrazero.Dispatcher.Pool.Execute.{Answers}
use sentrazero.Dispatcher.Pool.Workers.{
  receive, work, set_max_workers, leave, stop_worker_pool, set_backpressure, pause_job_processing,
  resume_job_processing,
}

pub data Step : Pool → Pool → Type 0 where
  submits : (now : ℕ) (req : JobRequest) (p : Pool) → Step p (submit_job_with_meta now req p).0
  receives :
      (req : JobRequest) (rest : List JobRequest) (p : Pool)
      → p.queue ≡ req ∷ rest
      → 0 < p.idle
      → Step p (receive req rest p)
  works :
      (a : Answers) (req : JobRequest) (before after : List JobRequest) (p : Pool)
      → p.in_flight ≡ before ++ req ∷ after
      → Step p (work a req (before ++ after) p)
  resizes : (n : ℤ) (p : Pool) → Step p (set_max_workers n p)
  stops : (p : Pool) → Step p (stop_worker_pool p)
  leaves : (p : Pool) → Step p (leave p)
  switches : (enabled : Bool) (p : Pool) → Step p (set_backpressure enabled p)
  pauses : (p : Pool) → Step p (pause_job_processing p)
  resumes : (p : Pool) → Step p (resume_job_processing p)
  stores : (d : Option Store) (p : Pool) → Step p (record p { dedup = d })

pub data Reach (p : Pool) : Pool → Type 0 where
  here : Reach p p
  next : {q r : Pool} → Reach p q → Step q r → Reach p r
