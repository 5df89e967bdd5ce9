-- ===== src/Plugin/Versions.antt =====
-- isNewerVersion and parseSemver of internal/plugin/update.go, and ShouldRunPlugin of
-- internal/plugin/db_sync.go.
use Prim.Native.Char.{Char, code}
use Prim.Native.String.{String, [], ◌∷◌}
use sentrazero.Base.{
  ℕ, ◌+◌, ◌-◌, ◌*◌, ◌%◌, ◌&&◌, ◌||◌, ◌==◌, Bool, true, false, not, Option, none, some, ltb, leb,
  nat_eq, if◌then◌else◌,
}
use sentrazero.Base.Int.{ℤ, pos, negsuc}

-- `strings.Split(version, ".")`, which yields one part at least.
pub data Parts : Type 0 where
  last : String → Parts
  more : String → Parts → Parts

unfoldable pub prepend : Char → Parts → Parts
prepend c (last part) = last (c ∷ part)
prepend c (more part parts) = more (c ∷ part) parts

unfoldable pub split_dots : String → Parts
unfolding prepend
split_dots [] = last []
split_dots (c ∷ version) =
    let rest = split_dots version in if nat_eq (code c) 46 then more [] rest else prepend c rest

abbrev pub is_digit : Char → Bool
is_digit c = leb 48 (code c) && leb (code c) 57

-- The digits that stand first, after a number.
unfoldable pub read_digits : ℕ → String → ℕ
read_digits n [] = n
read_digits n (c ∷ text) =
    let rest = read_digits (10 * n + (code c - 48)) text in if is_digit c then rest else n

unfoldable pub starts_with_digit : String → Bool
starts_with_digit [] = false
starts_with_digit (c ∷ text) = is_digit c

-- The negative of a number.
abbrev pub negate : ℕ → ℤ
negate n = if nat_eq n 0 then pos 0 else negsuc (n - 1)

-- `Sscanf(part, "%d")`: spaces and tabs, a sign and digits; what follows them is not read. A number
-- beyond 64 bits, which is an error in the code, and other white space are not modelled.
unfoldable pub scan_int : String → Option ℤ
unfolding read_digits starts_with_digit
scan_int [] = none
scan_int (c ∷ text) =
    let skipped = scan_int text in
    if nat_eq (code c) 32 || nat_eq (code c) 9
    then skipped
    else if is_digit c
    then some (pos (read_digits 0 (c ∷ text)))
    else if nat_eq (code c) 45 && starts_with_digit text
    then some (negate (read_digits 0 text))
    else if nat_eq (code c) 43 && starts_with_digit text
    then some (pos (read_digits 0 text))
    else none

pub record SemverParts : Type 0 where
  pub major : ℤ
  pub minor : ℤ
  pub patch : ℤ

unfoldable pub scan_parts : String → String → String → Option SemverParts
unfolding scan_int
scan_parts a b c = elim (scan_int a) [
  | none ↦ none
  | some major ↦ elim (scan_int b) [
    | none ↦ none
    | some minor ↦ elim (scan_int c) [
      | none ↦ none
      | some patch ↦ some (record { major = major; minor = minor; patch = patch })
    ]
  ]
]

-- Parts from the fourth on are not read.
unfoldable pub parse_parts : Parts → Option SemverParts
unfolding scan_parts
parse_parts (more a (more b (more c parts))) = scan_parts a b c
parse_parts (more a (more b (last c))) = scan_parts a b c
parse_parts (more a (last b)) = none
parse_parts (last a) = none

unfoldable pub parse_semver : String → Option SemverParts
unfolding split_dots parse_parts
parse_semver version = parse_parts (split_dots version)

abbrev pub int_ltb : ℤ → ℤ → Bool
int_ltb (pos a) (pos b) = ltb a b
int_ltb (pos a) (negsuc b) = false
int_ltb (negsuc a) (pos b) = true
int_ltb (negsuc a) (negsuc b) = ltb b a

-- The comparison of the parts, the major version first.
unfoldable pub is_after : SemverParts → SemverParts → Bool
is_after r l =
    if int_ltb r.major l.major || int_ltb l.major r.major
    then int_ltb l.major r.major
    else if int_ltb r.minor l.minor || int_ltb l.minor r.minor
    then int_ltb l.minor r.minor
    else int_ltb l.patch r.patch

unfoldable pub is_newer_version : String → String → Bool
unfolding is_after
is_newer_version remote local = if local == "" then true else elim (parse_semver remote) [
  | none ↦ not (remote == local)
  | some r ↦ elim (parse_semver local) [ none ↦ not (remote == local) | some l ↦ is_after r l ]
]

-- The first two bytes of the hash of the device's id, the low one first.
unfoldable pub should_run_plugin : ℕ → ℕ → ℤ → Bool
should_run_plugin low high (negsuc percentage) = false
should_run_plugin low high (pos percentage) =
    if leb 100 percentage then true else ltb ((low + 256 * high) % 100) percentage
