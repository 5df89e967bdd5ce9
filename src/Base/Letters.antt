-- ===== src/Base/Letters.antt =====
-- `strings.ToLower`.
use Prim.Native.Nat.{◌-◌}
use Prim.Native.Char.{Char, code}
use Prim.Native.String.{String, [], ◌∷◌, char_at}
use mathlib.Core.Bool.{◌&&◌}
use sentrazero.Base.Tests.{leb, nat_eq, if◌then◌else◌}

-- One character, where the result is ASCII: the letters A to Z, the Kelvin sign and the capital I with
-- a dot. Another character stays as it is, which no ASCII pattern can tell.
abbrev pub lower : Char → Char
lower c =
    if leb 65 (code c) && leb (code c) 90
    then char_at "abcdefghijklmnopqrstuvwxyz" (code c - 65)
    else if nat_eq (code c) 8490
    then char_at "k" 0
    else if nat_eq (code c) 304
    then char_at "i" 0
    else c

unfoldable pub to_lower : String → String
to_lower [] = []
to_lower (c ∷ text) = lower c ∷ to_lower text
