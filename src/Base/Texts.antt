-- ===== src/Base/Texts.antt =====
-- The searches of Go's package `strings`.
use Prim.Native.String.{String, find, len}
use mathlib.Core.List.{List, [], ◌∷◌}
use mathlib.Core.Bool.{Bool, true, false}
use sentrazero.Base.Tests.{leb, if◌then◌else◌}

-- `strings.Contains`
abbrev pub contains_text : String → String → Bool
contains_text text pattern = leb (find text pattern) (len text)

-- Is one of the patterns in the text.
abbrev pub contains_any : String → List String → Bool
contains_any text [] = false
contains_any text (pattern ∷ patterns) =
    if contains_text text pattern then true else contains_any text patterns
