-- ===== src/Backend/Completion.antt =====
-- What a worker learns from the completion of a job.
use sentrazero.Base.{◌≡◌, refl, Bool, false, not, ◌&&◌, ◌||◌, nat_eq, arith}
use sentrazero.Base.Texts.{contains_text}
use sentrazero.Backend.Calls.{
  HttpAnswer, broken, unreadable, replied, CompleteBody, is_retryable, error_text, complete_error,
  complete_job,
}

-- Did the backend take the completion: it says that it did, or that the job was complete before.
abbrev pub is_final : HttpAnswer CompleteBody → Bool
is_final broken = false
is_final (unreadable status) = false
is_final (replied status b) =
    nat_eq status 200 && b.is_ok
    || (contains_text (error_text b) "already completed"
        || contains_text (error_text b) "terminal state")

-- A completion is to be tried again exactly if the backend neither took it nor calls the job complete: any
-- other error counts as one to try again, a lost lease and a concurrent change among them, which are never
-- reported as such.
pub complete_job_lem :
    (a : HttpAnswer CompleteBody)
    → (is_retryable (complete_job a) ≡ not (is_final a))
      × ((complete_job a).is_lease_expired ≡ false)
      × ((complete_job a).is_concurrent_mod ≡ false)
unfolding complete_job complete_error is_retryable
complete_job_lem broken = (refl, refl, refl)
complete_job_lem (unreadable status) = (refl, refl, refl)
complete_job_lem (replied status b) = ground arith
