-- ===== src/Dispatcher/Payload.antt =====
-- A job's payload (`json.RawMessage`) as what encoding/json reads from it. A field that is absent
-- decodes to the zero value of its type, and a field of another JSON type is not modelled.
use sentrazero.Base.{String}

pub record Fields : Type 0 where
  pub id : String
  pub job_type : String
  pub chunk_id : String
  pub dataset_id : String
  pub plugin_id : String
  pub plugin_name : String
  pub plugin_code : String
  pub execution_id : String
  -- the key `job_id`, which the dispatcher injects for the chunk handler
  pub job_id : String

pub data Payload : Type 0 where
  -- no bytes
  empty : Payload
  -- bytes that `json.Valid` refuses
  malformed : Payload
  object : Fields → Payload
