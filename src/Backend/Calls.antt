-- ===== src/Backend/Calls.antt =====
-- The answers of the backend that decide about jobs: CompleteJob, VerifyJobLease,
-- RequestJobAssignment and GetAssignedJobs.
use sentrazero.Base.{
  ℕ, String, Bool, true, false, not, Option, none, some, List, ◌&&◌, ◌||◌, ◌==◌, leb, nat_eq,
  if◌then◌else◌,
}
use sentrazero.Base.Texts.{contains_text}

-- How a request ends: without a response, with a status and a body that cannot be read, or with both.
pub data HttpAnswer (B : Type 0) : Type 0 where
  broken : HttpAnswer B
  unreadable : ℕ → HttpAnswer B
  replied : ℕ → B → HttpAnswer B

-- The fields that a call reads, zero where they are absent or the body is no JSON, and the body's text.
pub record CompleteBody : Type 0 where
  pub is_ok : Bool
  pub idempotent : Bool
  pub error : String
  pub text : String

-- `err` is the error's message, where there is one.
pub data CallError : Type 0 where
  request_failed read_failed bad_json rejected : CallError
  api_error : String → CallError
  status_error : ℕ → String → CallError

pub record CompleteJobResult : Type 0 where
  pub is_lease_expired : Bool
  pub is_already_done : Bool
  pub is_concurrent_mod : Bool
  pub err : Option CallError

unfoldable pub is_stale_execution : CompleteJobResult → Bool
is_stale_execution r = r.is_lease_expired || r.is_already_done

unfoldable pub is_retryable : CompleteJobResult → Bool
is_retryable r = elim r.err [
  | none ↦ false
  | some e ↦ not r.is_lease_expired && (not r.is_already_done && not r.is_concurrent_mod)
]

abbrev pub result_with : Bool → Option CallError → CompleteJobResult
result_with done err = record {
  is_lease_expired = false;
  is_already_done = done;
  is_concurrent_mod = false;
  err = err;
}

abbrev pub error_text : CompleteBody → String
error_text b = if b.error == "" then b.text else b.error

-- The mapping of an error response.
unfoldable pub complete_error : ℕ → CompleteBody → CompleteJobResult
complete_error status b =
    if contains_text (error_text b) "already completed"
      || contains_text (error_text b) "terminal state"
    then result_with true (some (api_error (error_text b)))
    else result_with false (some (status_error status (error_text b)))

unfoldable pub complete_job : HttpAnswer CompleteBody → CompleteJobResult
unfolding complete_error
complete_job broken = result_with false (some request_failed)
complete_job (unreadable status) = result_with false (some read_failed)
complete_job (replied status b) =
    if nat_eq status 200 && b.is_ok
    then if b.idempotent then result_with true none else result_with false none
    else complete_error status b

-- A decoded body, or none where it is no JSON; `api_message` is the field `error` of an APIResponse.
pub record Body (F : Type 0) : Type 0 where
  pub fields : Option F
  pub api_message : String
  pub text : String

unfoldable pub status_failure : {F : Type 0} → ℕ → Body F → CallError
status_failure status b =
    if b.api_message == "" then status_error status b.text else api_error b.api_message

pub data CallResult {ℓ} (A : Type ℓ) : Type ℓ where
  returned : A → CallResult A
  failed : CallError → CallResult A

pub record JobLeaseStatus : Type 0 where
  pub job_id : String
  pub is_valid : Bool

unfoldable pub verify_job_lease :
    String → HttpAnswer (Body JobLeaseStatus) → CallResult JobLeaseStatus
unfolding status_failure
verify_job_lease job_id broken = failed request_failed
verify_job_lease job_id (unreadable status) =
    if nat_eq status 404
    then returned (record { job_id = job_id; is_valid = false })
    else failed read_failed
verify_job_lease job_id (replied status b) =
    if nat_eq status 404
    then returned (record { job_id = job_id; is_valid = false })
    else if leb 300 status
    then failed (status_failure status b)
    else elim b.fields [ none ↦ failed bad_json | some lease ↦ returned lease ]

pub record AssignedJob : Type 0 where
  pub job_id : String
  pub job_type : String
  pub execution_id : String

-- The wrapped job `result`, and the flat fields.
pub record Assignment : Type 0 where
  pub is_ok : Bool
  pub result : AssignedJob
  pub flat : AssignedJob
  pub error : String

abbrev pub no_job : AssignedJob
no_job = record { job_id = ""; job_type = ""; execution_id = "" }

unfoldable pub assigned : Assignment → CallResult (Option AssignedJob)
assigned a =
    if not (a.result.job_id == "")
    then returned (some a.result)
    else if not (a.flat.job_id == "")
    then returned (some a.flat)
    else if not a.is_ok && not (a.error == "")
    then failed (api_error a.error)
    else if not a.is_ok
    then failed rejected
    else returned (some no_job)

unfoldable pub request_job_assignment :
    HttpAnswer (Body Assignment) → CallResult (Option AssignedJob)
unfolding status_failure assigned
request_job_assignment broken = failed request_failed
request_job_assignment (unreadable status) =
    if nat_eq status 204 then returned none else failed read_failed
request_job_assignment (replied status b) =
    if nat_eq status 204
    then returned none
    else if leb 300 status
    then failed (status_failure status b)
    else elim b.fields [ none ↦ failed bad_json | some a ↦ assigned a ]

-- The answer of `get_assigned_jobs`: the mark `ok` and the jobs.
pub record AssignedJobs : Type 0 where
  pub is_ok : Bool
  pub jobs : List AssignedJob

unfoldable pub get_assigned_jobs : HttpAnswer (Body AssignedJobs) → CallResult (List AssignedJob)
get_assigned_jobs broken = failed request_failed
get_assigned_jobs (unreadable status) = failed read_failed
get_assigned_jobs (replied status b) =
    if leb 300 status then failed (status_error status b.text) else elim b.fields [
      | none ↦ failed bad_json
      | some a ↦ if a.is_ok then returned a.jobs else failed rejected
    ]
