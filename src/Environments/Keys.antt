-- ===== src/Environments/Keys.antt =====
-- The key and the directory of an environment.
use Prim.Native.String.{slice, ◌++◌}
use sentrazero.Base.{String}

-- What a caller asks for; `lock_hash` is the given hash, or the computed one where none is given.
pub record Request : Type 0 where
  pub org_id : String
  pub runtime_type : String
  pub version : String
  pub lock_hash : String

unfoldable pub get_environment_key : Request → String → String
get_environment_key r os =
    r.org_id
    ++ ":"
    ++ r.runtime_type
    ++ ":"
    ++ r.version
    ++ ":"
    ++ os
    ++ ":"
    ++ slice r.lock_hash 0 32

abbrev pub hash_prefix : Request → String
hash_prefix r = slice r.lock_hash 0 16

-- `filepath.Join` of parts without `.` and `..`.
unfoldable pub env_path : Request → String → String
env_path r base = base ++ "/env/" ++ r.org_id ++ "/" ++ r.runtime_type ++ "/" ++ hash_prefix r
