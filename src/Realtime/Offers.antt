-- ===== src/Realtime/Offers.antt =====
-- The jobs of a response: their fields under either name, the alternative format, and the malformed
-- ones.
use sentrazero.Base.{
  ◌&&◌, ◌||◌, ◌==◌, String, Bool, true, false, not, List, [], ◌∷◌, ◌++◌, if◌then◌else◌,
}
use sentrazero.Dispatcher.Payload.{Payload, empty, malformed, object}

-- The fields of a job that a poll reads.
pub record RealtimeJobPayload : Type 0 where
  pub id : String
  pub job_id : String
  pub job_type : String
  pub payload : Payload
  pub job_payload : Payload
  pub execution_step_id : String
  pub execution_id : String
  pub exec_id : String
  pub org_id : String

unfoldable pub get_job_id : RealtimeJobPayload → String
get_job_id j = if j.id == "" then j.job_id else j.id

unfoldable pub get_execution_id : RealtimeJobPayload → String
get_execution_id j = if j.execution_id == "" then j.exec_id else j.execution_id

unfoldable pub get_payload : RealtimeJobPayload → Payload
get_payload j = elim j.payload [
  | empty ↦ j.job_payload
  | malformed ↦ malformed
  | object f ↦ object f
]

-- What decoding the same response into `ClaimJobResponse` and copying that into a RealtimeJobPayload
-- yields.
unfoldable pub alternative : RealtimeJobPayload → RealtimeJobPayload
alternative j = record {
  id = j.job_id;
  job_id = "";
  job_type = j.job_type;
  payload = j.job_payload;
  job_payload = empty;
  execution_step_id = "";
  execution_id = j.exec_id;
  exec_id = "";
  org_id = "";
}

unfoldable pub has_valid_job : List RealtimeJobPayload → Bool
unfolding get_job_id get_execution_id
has_valid_job [] = false
has_valid_job (j ∷ jobs) =
    (not (get_job_id j == "") && not (get_execution_id j == "")) || has_valid_job jobs

unfoldable pub alternatives : List RealtimeJobPayload → List RealtimeJobPayload
unfolding alternative
alternatives [] = []
alternatives (j ∷ jobs) =
    let rest = alternatives jobs in if j.job_id == "" then rest else alternative j ∷ rest

-- The jobs of a response: in the alternative format too where none is valid.
unfoldable pub offered : Bool → List RealtimeJobPayload → List RealtimeJobPayload
unfolding has_valid_job alternatives
offered is_ok jobs = if not (has_valid_job jobs) && is_ok then jobs ++ alternatives jobs else jobs

-- A job that is not dropped as malformed.
unfoldable pub well_formed : RealtimeJobPayload → Bool
unfolding get_job_id get_payload
well_formed j =
    not (get_job_id j == "")
    && (not (j.job_type == "")
        && elim (get_payload j) [ empty ↦ true | malformed ↦ false | object f ↦ true ])
