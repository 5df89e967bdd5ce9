-- ===== src/Storage/Clean/Leads.antt =====
-- Where a path leads, part by part, and that a clean path names that place.
use Prim.Native.String.{[], ◌∷◌, ◌++◌}
use text.Mathlib.TextLemmas.{cons-append}
use mathlib.Core.List as L
use mathlib.Core.List.{reverse}
use sentrazero.Base.{◌≡◌, ◌||◌, refl, ap, ◌∙◌, String, true, false, List, arith, ◌==◌}
use sentrazero.Storage.Clean.{
  parts, is_rooted, go_up, go_to, clean_onto, clean_parts, joined, clean_path, join_path,
}

-- From the directory whose parts are `at`, the last first, the parts of a path lead to a file: an empty
-- part and `.` stay, `..` goes up, at the root it stays, and any other part goes down.
pub data Leads : List String → List String → List String → Type 0 where
  arrives : (at : List String) → Leads at L.[] (reverse at)
  stays :
      (at path file : List String) (part : String)
      → (part == "" || part == ".") ≡ true
      → Leads at path file
      → Leads at (L.◌∷◌ part path) file
  goes_up :
      (at path file : List String) (last : String)
      → (last == "..") ≡ false
      → Leads at path file
      → Leads (L.◌∷◌ last at) (L.◌∷◌ ".." path) file
  is_at_root : (path file : List String) → Leads L.[] path file → Leads L.[] (L.◌∷◌ ".." path) file
  goes_down :
      (at path file : List String) (part : String)
      → (part == "" || part == ".") ≡ false
      → (part == "..") ≡ false
      → Leads (L.◌∷◌ part at) path file
      → Leads at (L.◌∷◌ part path) file

clean_onto-Leads :
    (at path file : List String) → Leads at path file → clean_onto true at path ≡ file
unfolding clean_onto go_to go_up
clean_onto-Leads _ _ _ (arrives at) = refl
clean_onto-Leads _ _ _ (stays at path file part h rest) =
    rw (clean_onto, go_to, h) (clean_onto-Leads at path file rest)
clean_onto-Leads _ _ _ (goes_up at path file last h rest) =
    rw (clean_onto, go_to, go_up, h) (clean_onto-Leads at path file rest)
clean_onto-Leads _ _ _ (is_at_root path file rest) = clean_onto-Leads L.[] path file rest
clean_onto-Leads _ _ _ (goes_down at path file part h g rest) =
    rw (clean_onto, go_to, h, g) (clean_onto-Leads (L.◌∷◌ part at) path file rest)

is_rooted-append : (a b : String) → is_rooted a ≡ true → is_rooted (a ++ b) ≡ true
unfolding is_rooted
is_rooted-append [] b h = absurd (ground (arith, h))
is_rooted-append (c ∷ a) b h = ap is_rooted (cons-append c a b) ∙ h

-- Below a rooted base, a joined path names the file that its parts lead to.
pub join_path-Leads :
    (base key : String) (file : List String)
    → is_rooted base ≡ true
    → Leads L.[] (parts (base ++ ("/" ++ key))) file
    → join_path base key ≡ "/" ++ joined file
unfolding join_path clean_path clean_parts
join_path-Leads base key file h leads =
    rw
      (
        join_path,
        clean_path,
        clean_parts,
        is_rooted-append base ("/" ++ key) h,
        clean_onto-Leads L.[] (parts (base ++ ("/" ++ key))) file leads,
      )
      refl
