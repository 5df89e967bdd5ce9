-- ===== src/Executor/Classify.antt =====
-- `classifyError` of cmd/agent/executor/v2/executor.go.
use sentrazero.Base.{String, List, [], ◌∷◌, if◌then◌else◌}
use sentrazero.Base.Texts.{contains_any}
use sentrazero.Base.Letters.{to_lower}

abbrev pub retryable_patterns : List String
retryable_patterns =
    "timeout" ∷ "connection" ∷ "network" ∷ "io error" ∷ "disk full" ∷ "no module named"
    ∷ "cannot find module" ∷ "install failed" ∷ "out of memory" ∷ []

abbrev pub plugin_errors : List String
plugin_errors =
    "syntax" ∷ "indentation" ∷ "type error" ∷ "undefined" ∷ "import error" ∷ "attribute error"
    ∷ "name error" ∷ "value error" ∷ "runtime error" ∷ "exception" ∷ []

abbrev pub infra_errors : List String
infra_errors =
    "docker" ∷ "container" ∷ "no space left" ∷ "cannot create" ∷ "permission denied"
    ∷ "access denied" ∷ "failed to mount" ∷ "failed to start" ∷ "not found" ∷ "exec format error"
    ∷ []

abbrev pub system_errors : List String
system_errors =
    "untrusted" ∷ "security" ∷ "panic" ∷ "forbidden" ∷ "invalid signature" ∷ "checksum mismatch"
    ∷ "not trusted" ∷ []

-- The class of the first list with a pattern in the message.
unfoldable pub class_of : String → String
class_of message =
    if contains_any message system_errors
    then "system_error"
    else if contains_any message infra_errors
    then "infra_error"
    else if contains_any message plugin_errors
    then "plugin_error"
    else if contains_any message retryable_patterns
    then "infra_error"
    else "unknown"

unfoldable pub classify_error : String → String
unfolding class_of
classify_error message = class_of (to_lower message)
