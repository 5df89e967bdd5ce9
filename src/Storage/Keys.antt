-- ===== src/Storage/Keys.antt =====
-- The keys of a dataset's objects and the paths of its files. A chunk index is not negative.
use Prim.Native.Char.{code}
use Prim.Native.String.{◌++◌, char_at}
use text.Mathlib.TextLemmas.{
  append_cancel_left, append_cancel_right, head-eq_of_cons-eq, cons-append,
}
use sentrazero.Base.{arith, ap, ℕ, ◌≡◌, String, ◌==◌, if◌then◌else◌, ◌≢◌, ◌∙◌}
use sentrazero.Base.Decimal.{decimal, decimal_inj}

pub data PathType : Type 0 where
  chunk result merged : PathType
  -- any other text
  other : PathType

abbrev pub base_of : String → String → String
base_of dataset_id slug = if slug == "" then dataset_id else slug

unfoldable pub get_remote_path_with_slug : String → String → ℕ → PathType → String
get_remote_path_with_slug dataset_id slug index chunk =
    base_of dataset_id slug ++ ("/chunks/chunk_" ++ (decimal index ++ ".bin"))
get_remote_path_with_slug dataset_id slug index result =
    base_of dataset_id slug ++ ("/chunks/chunk_" ++ (decimal index ++ ".out"))
get_remote_path_with_slug dataset_id slug index merged = base_of dataset_id slug ++ "_merged.csv"
get_remote_path_with_slug dataset_id slug index other = ""

unfoldable pub get_remote_path : String → ℕ → PathType → String
unfolding get_remote_path_with_slug
get_remote_path dataset_id index kind = get_remote_path_with_slug dataset_id "" index kind

-- Chunks of one dataset have different keys.
pub result_key_inj :
    (dataset_id slug : String) (i j : ℕ)
    → get_remote_path_with_slug dataset_id slug i result
      ≡ get_remote_path_with_slug dataset_id slug j result
    → i ≡ j
unfolding get_remote_path_with_slug
result_key_inj dataset_id slug i j h = decimal_inj i j (
    append_cancel_right (decimal i) (decimal j) ".out" (
      append_cancel_left "/chunks/chunk_" _ _ (append_cancel_left (base_of dataset_id slug) _ _ h)))

merged_apart : (x : String) → "_merged.csv" ≢ "/chunks/chunk_" ++ x
merged_apart x h =
    let first : code (char_at "_" 0) ≡ code (char_at "/" 0) = ap code (
      head-eq_of_cons-eq {y = char_at "/" 0} {xs = "merged.csv"}
        (h ∙ cons-append (char_at "/" 0) "chunks/chunk_" x)) in
    absurd (omega (arith, first))

-- The merged object is none of the dataset's chunks.
pub merged-ne-result :
    (dataset_id slug : String) (i j : ℕ)
    → get_remote_path_with_slug dataset_id slug i merged
      ≢ get_remote_path_with_slug dataset_id slug j result
unfolding get_remote_path_with_slug
merged-ne-result dataset_id slug i j h =
    merged_apart _ (append_cancel_left (base_of dataset_id slug) _ _ h)

pub merged-ne-chunk :
    (dataset_id slug : String) (i j : ℕ)
    → get_remote_path_with_slug dataset_id slug i merged
      ≢ get_remote_path_with_slug dataset_id slug j chunk
unfolding get_remote_path_with_slug
merged-ne-chunk dataset_id slug i j h =
    merged_apart _ (append_cancel_left (base_of dataset_id slug) _ _ h)
