-- ===== src/Dispatcher/Routing.antt =====
-- internal/dispatcher/execute.go: the validation of a job's metadata and the choice of a handler.
-- The handlers and the executor are arguments: what they return is an error message or nothing.
pub mod Routes
use sentrazero.Base.{String, Bool, true, false, not, Option, none, some, ◌&&◌, ◌==◌, if◌then◌else◌}
use sentrazero.Dispatcher.Payload.{Payload, Fields, empty, malformed, object}

pub record JobMeta : Type 0 where
  pub job_type : String
  pub chunk_id : String
  pub dataset_id : String

pub data MetaError : Type 0 where
  cancelled empty_payload invalid_json job_type_required : MetaError
  process_without_target merge_without_dataset : MetaError
  unknown_job_type : String → MetaError
  job_type_mismatch : String → String → MetaError
  handler_failed : String → MetaError
  plugin_failed : String → String → MetaError

pub data Checked {ℓ} (A : Type ℓ) : Type ℓ where
  ok : A → Checked A
  err : MetaError → Checked A

infixl 5 ◌>>=◌
abbrev pub ◌>>=◌ {ℓ κ} : {A : Type ℓ} {B : Type κ} → Checked A → (A → Checked B) → Checked B
ok a >>= f = f a
err e >>= f = err e

-- The payload's type, or the envelope's where it has none.
unfoldable pub chosen_type : String → Fields → Checked String
chosen_type envelope f =
    if not (f.job_type == "")
    then ok f.job_type
    else if not (envelope == "")
    then ok envelope
    else err job_type_required

unfoldable pub normalize : String → String
normalize job_type = if job_type == "process_dataset" then "process" else job_type

-- The `switch` over the job type.
unfoldable pub check_target : JobMeta → Checked JobMeta
check_target m =
    if m.job_type == "process"
    then if m.chunk_id == "" && m.dataset_id == "" then err process_without_target else ok m
    else if m.job_type == "merge_dataset"
    then if m.dataset_id == "" then err merge_without_dataset else ok m
    else if m.job_type == "preprocess"
    then ok m
    else if m.job_type == "scan_dataset"
    then ok m
    else err (unknown_job_type m.job_type)

unfoldable pub extract_job_meta : Payload → String → Checked JobMeta
extract_job_meta empty envelope = err empty_payload
extract_job_meta malformed envelope = err invalid_json
extract_job_meta (object f) envelope = do
  t ← chosen_type envelope f
  check_target (record { job_type = normalize t; chunk_id = f.chunk_id; dataset_id = f.dataset_id })

-- The envelope against the payload.
unfoldable pub check_envelope : String → JobMeta → Checked JobMeta
check_envelope envelope m =
    if envelope == ""
    then ok m
    else if normalize envelope == m.job_type
    then ok m
    else err (job_type_mismatch envelope m.job_type)

-- Where a job goes. The chunk handler's payload carries the job's id where it has one.
pub data Route : Type 0 where
  complete_now : Route
  scan_dataset merge_dataset process_chunk : Payload → Route
  execute_plugin : String → Fields → Route

unfoldable pub inject_job_id : Fields → Fields
inject_job_id f = if f.id == "" then f else record f { job_id = f.id }

-- The id of the executor's job.
unfoldable pub executor_job_id : Fields → String
executor_job_id f =
    if not (f.id == "")
    then f.id
    else if not (f.execution_id == "")
    then f.execution_id
    else if f.chunk_id == ""
    then f.dataset_id
    else f.chunk_id

unfoldable pub route : JobMeta → Fields → Route
route m f =
    if m.job_type == "preprocess"
    then complete_now
    else if m.job_type == "scan_dataset"
    then scan_dataset (object f)
    else if m.job_type == "merge_dataset"
    then merge_dataset (object f)
    else if m.job_type == "process" && f.plugin_code == "" && not (m.chunk_id == "")
    then process_chunk (object (inject_job_id f))
    else if m.job_type == "process" && m.chunk_id == "" && not (m.dataset_id == "")
    then complete_now
    else execute_plugin (executor_job_id f) f

-- What the executor returns.
pub record Result : Type 0 where
  pub success : Bool
  pub classification : String
  pub message : String

-- `executorInstance.ExecuteJob` returns an error or a result.
pub data Executed : Type 0 where
  call_failed : String → Executed
  returned : Result → Executed

pub record Handlers : Type 0 where
  pub scan : Payload → Option String
  pub merge : Payload → Option String
  pub chunk : Payload → Option String
  pub executor : String → Fields → Executed

abbrev pub lift : Option String → Checked (Unit {0})
lift none = ok tt
lift (some message) = err (handler_failed message)

-- The message of a plugin that failed.
abbrev pub failure_message : Result → String
failure_message r =
    if r.message == "" then "plugin execution returned failure without error details" else r.message

unfoldable pub conclude : Executed → Checked (Unit {0})
conclude (call_failed message) = err (handler_failed message)
conclude (returned r) =
    if r.success then ok tt else err (plugin_failed r.classification (failure_message r))

unfoldable pub dispatch : Handlers → Route → Checked (Unit {0})
dispatch h complete_now = ok tt
dispatch h (scan_dataset p) = lift (h.scan p)
dispatch h (merge_dataset p) = lift (h.merge p)
dispatch h (process_chunk p) = lift (h.chunk p)
dispatch h (execute_plugin id f) = conclude (h.executor id f)

-- The decision of `ExecuteJob`, and the call that it makes.
unfoldable pub plan_job : Bool → String → Payload → Checked Route
plan_job cancelled_before envelope payload =
    if cancelled_before then err cancelled else elim payload [
      | empty ↦ err empty_payload
      | malformed ↦ err invalid_json
      | object f ↦ do
        m ← extract_job_meta (object f) envelope
        checked ← check_envelope envelope m
        ok (route checked f)
    ]

unfoldable pub execute_job : Handlers → Bool → String → Payload → Checked (Unit {0})
execute_job h cancelled_before envelope payload = do
  r ← plan_job cancelled_before envelope payload
  dispatch h r
