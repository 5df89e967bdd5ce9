-- ===== src/Storage/Clean.antt =====
-- `filepath.Join`, `filepath.Clean` and `filepath.Rel` on Unix, on the parts of a path between its
-- separators.
pub mod Leads
use Prim.Native.Char.{Char, code}
use Prim.Native.String.{[], ◌∷◌, ◌++◌}
use mathlib.Core.List as L
use mathlib.Core.List.{reverse}
use sentrazero.Base.{◌||◌, String, Bool, true, false, not, List, map, nat_eq, ◌==◌, if◌then◌else◌}

unfoldable push : Char → List String → List String
push c L.[] = L.◌∷◌ (c ∷ []) L.[]
push c (L.◌∷◌ part rest) = L.◌∷◌ (c ∷ part) rest

-- The parts of a path between its separators.
unfoldable pub parts : String → List String
unfolding push
parts [] = L.◌∷◌ "" L.[]
parts (c ∷ path) =
    let rest = parts path in if nat_eq (code c) 47 then L.◌∷◌ "" rest else push c rest

unfoldable pub is_rooted : String → Bool
is_rooted [] = false
is_rooted (c ∷ path) = nat_eq (code c) 47

-- Up from the directory that the parts lead to, the last part standing first.
unfoldable pub go_up : Bool → List String → List String
go_up rooted L.[] = if rooted then L.[] else L.◌∷◌ ".." L.[]
go_up rooted (L.◌∷◌ part done) = if part == ".." then L.◌∷◌ ".." (L.◌∷◌ part done) else done

unfoldable pub go_to : Bool → List String → String → List String
unfolding go_up
go_to rooted done part =
    if part == "" || part == "."
    then done
    else if part == ".."
    then go_up rooted done
    else L.◌∷◌ part done

unfoldable pub clean_onto : Bool → List String → List String → List String
unfolding go_to
clean_onto rooted done L.[] = reverse done
clean_onto rooted done (L.◌∷◌ part rest) = clean_onto rooted (go_to rooted done part) rest

unfoldable pub clean_parts : String → List String
unfolding parts is_rooted clean_onto
clean_parts path = clean_onto (is_rooted path) L.[] (parts path)

unfoldable pub joined : List String → String
joined L.[] = ""
joined (L.◌∷◌ part L.[]) = part
joined (L.◌∷◌ part (L.◌∷◌ next rest)) = part ++ ("/" ++ joined (L.◌∷◌ next rest))

-- `filepath.Clean`
unfoldable pub clean_path : String → String
unfolding clean_parts joined
clean_path path =
    let name = joined (clean_parts path) in
    if is_rooted path then "/" ++ name else if name == "" then "." else name

-- `filepath.Join` of a base that is not empty.
unfoldable pub join_path : String → String → String
unfolding clean_path
join_path base key = clean_path (base ++ ("/" ++ key))

-- Are the parts of a file those of the directory, or below it?
unfoldable pub is_within : List String → List String → Bool
is_within L.[] L.[] = true
is_within L.[] (L.◌∷◌ part file) = not (part == "..")
is_within (L.◌∷◌ d directory) L.[] = false
is_within (L.◌∷◌ d directory) (L.◌∷◌ part file) =
    let below = is_within directory file in if d == part then below else false

-- `filepath.Rel` of clean paths.
unfoldable pub relative : List String → List String → List String
relative L.[] file = file
relative (L.◌∷◌ d directory) L.[] = map (λ part. "..") (L.◌∷◌ d directory)
relative (L.◌∷◌ d directory) (L.◌∷◌ part file) =
    let below = relative directory file in
    if d == part then below else L.◌++◌ (map (λ x. "..") (L.◌∷◌ d directory)) (L.◌∷◌ part file)
