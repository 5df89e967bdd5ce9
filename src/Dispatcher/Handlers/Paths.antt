-- ===== src/Dispatcher/Handlers/Paths.antt =====
-- The paths and modes that the handlers derive. Paths are clean, and the separator is that of Unix.
use Prim.Native.Char.{code}
use Prim.Native.String.{[], ◌∷◌, ◌++◌, slice, len}
use mathlib.Core.List as L
use sentrazero.Base.{ℕ, ◌+◌, String, Bool, false, not, ◌||◌, List, nat_eq, ◌==◌, if◌then◌else◌}
use sentrazero.Base.Decimal.{decimal}

-- `filepath.IsAbs`
unfoldable pub is_abs : String → Bool
is_abs [] = false
is_abs (c ∷ path) = nat_eq (code c) 47

-- `filepath.Join`, which leaves out empty elements.
unfoldable pub join : List String → String
join L.[] = ""
join (L.◌∷◌ x xs) =
    let rest = join xs in if x == "" then rest else if rest == "" then x else x ++ ("/" ++ rest)

unfoldable pub first_non_empty : List String → String
first_non_empty L.[] = ""
first_non_empty (L.◌∷◌ x xs) = let rest = first_non_empty xs in if not (x == "") then x else rest

-- `mount_path` is SENTRA_MOUNT_PATH.
unfoldable pub derive_mount_base_path : String → String → String
derive_mount_base_path mount_path mode =
    if not (mode == "shared_mount")
    then ""
    else if not (mount_path == "")
    then mount_path
    else "/data/sentra"

-- Where a mount keeps the result of a chunk.
unfoldable pub chunk_out_path : String → String → ℕ → String
unfolding join
chunk_out_path mount dataset_id index = join (
    L.◌∷◌ mount (
      L.◌∷◌ "datasets"
        (L.◌∷◌ dataset_id (L.◌∷◌ "chunks" (L.◌∷◌ ("chunk_" ++ (decimal index ++ ".out")) L.[])))))

unfoldable pub normalize_storage_mode_for_job : String → String
normalize_storage_mode_for_job mode =
    if mode == "s3" || (mode == "aws_s3" || (mode == "s3_compatible" || mode == "object_storage"))
    then "s3"
    else if mode == "gcs" || mode == "google_cloud_storage"
    then "gcs"
    else if mode == "azure_blob"
    then "azure_blob"
    else if mode == "shared_mount" || mode == "local"
    then "shared_mount"
    else mode

-- The part of a path after its last separator, `last` being what was read since the one before.
unfoldable pub base_after : String → String → String
base_after last [] = last
base_after last (c ∷ path) = base_after (if nat_eq (code c) 47 then [] else last ++ (c ∷ [])) path

-- `filepath.Base`
unfoldable pub base : String → String
unfolding base_after
base path = base_after [] path

ext_after : String → String → String
ext_after last [] = last
ext_after last (c ∷ path) =
    ext_after
      (if nat_eq (code c) 47
        then []
        else if nat_eq (code c) 46
        then c ∷ []
        else if last == []
        then []
        else last ++ (c ∷ []))
      path

-- `filepath.Ext`: from the last dot of the last part on.
unfoldable pub ext : String → String
unfolding ext_after
ext path = ext_after [] path

slash_after : Bool → String → Bool
slash_after last [] = last
slash_after last (c ∷ path) = slash_after (nat_eq (code c) 47) path

-- `strings.HasSuffix(path, "/")`
unfoldable pub ends_with_slash : String → Bool
unfolding slash_after
ends_with_slash path = slash_after false path

-- Where a mount keeps the input of a chunk.
unfoldable pub chunk_bin_path : String → String → ℕ → String
unfolding join
chunk_bin_path mount dataset_id index = join (
    L.◌∷◌ mount (
      L.◌∷◌ "datasets"
        (L.◌∷◌ dataset_id (L.◌∷◌ "chunks" (L.◌∷◌ ("chunk_" ++ (decimal index ++ ".bin")) L.[])))))

-- Where a mount keeps the metadata of a chunk without an output file.
unfoldable pub chunk_json_path : String → String → ℕ → String
unfolding join
chunk_json_path mount dataset_id index = join (
    L.◌∷◌ mount (
      L.◌∷◌ "datasets"
        (L.◌∷◌ dataset_id (L.◌∷◌ "chunks" (L.◌∷◌ ("chunk_" ++ (decimal index ++ ".json")) L.[])))))

-- Is the path the directory itself, or a path below it? Everything is below the empty one.
unfoldable pub is_below : String → String → Bool
is_below directory path =
    directory == "" || (path == directory || slice path 0 (len directory + 1) == directory ++ "/")
