-- ===== src/Storage/Mount.antt =====
-- `SharedMountBackend`: the objects are the files of the file system, by their clean paths; no path
-- passes through a symbolic link. What the calls of the file system answer are arguments, by the path
-- that a key and the base make.
use Prim.Native.String.{compare, ◌++◌}
use text.Mathlib.Text.{is_lt}
use sentrazero.Base.{
  ℕ, ◌&&◌, List, [], ◌∷◌, ◌≡◌, sym, String, Bool, true, false, not, Option, none, some,
  Option-cases, inl, inr, take, arith, ◌==◌, eq_refl, if◌then◌else◌,
}
use sentrazero.Base.Dict.{lookup, insert, delete, lookup-insert, lookup-delete}
use sentrazero.Storage.Backends.{Bytes, Objects, StorageBackend}
use sentrazero.Storage.Clean.{parts, is_rooted, clean_parts, is_within, relative, joined, join_path}
use sentrazero.Storage.Clean.Leads.{Leads, join_path-Leads}

pub record Mount : Type 0 where
  pub opens : String → Bool
  pub makes_directory : String → Bool
  pub creates : String → Bool
  -- the number of bytes after which the copy fails, if it does
  pub breaks : String → Option ℕ
  pub syncs : String → Bool
  pub removes : String → Bool
  -- can the files below a path be visited?
  pub walks : String → Bool

unfoldable pub read_file : Mount → String → Objects → Option Bytes
read_file m path files = if m.opens path then lookup path files else none

-- The file is cut to nothing, written and synced.
unfoldable pub write_file : Mount → String → Bytes → Objects → Bool × Objects
write_file m path bytes files =
    if not (m.makes_directory path)
    then (false, files)
    else if not (m.creates path)
    then (false, files)
    else elim (m.breaks path) [
      | some n ↦ (false, insert path (take n bytes) files)
      | none ↦ (m.syncs path, insert path bytes files)
    ]

unfoldable pub remove_file : Mount → String → Objects → Bool × Objects
remove_file m path files = elim (lookup path files) [
  | none ↦ (false, files)
  | some bytes ↦ if m.removes path then (true, delete path files) else (false, files)
]

unfoldable place_key : String → List String → List String
place_key k [] = k ∷ []
place_key k (j ∷ ks) =
    let rest = place_key k ks in if is_lt (compare j k) then j ∷ rest else k ∷ j ∷ ks

-- Does the walk of a directory come to a file?
unfoldable visits : String → String → Bool
unfolding clean_parts is_within
visits directory path =
    let below = is_within (clean_parts directory) (clean_parts path) in
    if is_rooted directory then is_rooted path && below else not (is_rooted path) && below

-- The key of a file.
unfoldable key_below : String → String → String
unfolding clean_parts relative joined
key_below base path =
    let name = joined (relative (clean_parts base) (clean_parts path)) in
    if name == "" then "." else name

unfoldable list_files : String → String → Objects → List String
unfolding visits key_below place_key
list_files base directory [] = []
list_files base directory ((path, bytes) ∷ files) =
    let rest = list_files base directory files in
    if visits directory path then place_key (key_below base path) rest else rest

unfoldable walk_files : String → Mount → String → Objects → Option (List String)
unfolding list_files
walk_files base m directory files =
    if m.walks directory then some (list_files base directory files) else none

unfoldable pub shared_mount : String → Mount → StorageBackend
unfolding read_file write_file remove_file walk_files join_path
shared_mount base m = record {
  is_shared_mount = true;
  read_object = λ k files. read_file m (join_path base k) files;
  write_object = λ k bytes files. write_file m (join_path base k) bytes files;
  delete_object = λ k files. remove_file m (join_path base k) files;
  list_objects = λ prefix files. walk_files base m (join_path base prefix) files;
}

pub read_file-held :
    (m : Mount) (k : String) (s : Objects) (bytes : Bytes)
    → read_file m k s ≡ some bytes
    → lookup k s ≡ some bytes
unfolding read_file
read_file-held m k s bytes h = ground arith

pub write_file-held :
    (m : Mount) (k : String) (bytes : Bytes) (s : Objects)
    → (write_file m k bytes s).0 ≡ true
    → lookup k (write_file m k bytes s).1 ≡ some bytes
unfolding write_file
write_file-held m k bytes s h = ground (arith, lookup-insert k k bytes s, eq_refl k)

pub write_file-others :
    (m : Mount) (k j : String) (bytes : Bytes) (s : Objects)
    → (k == j) ≡ false
    → lookup j (write_file m k bytes s).1 ≡ lookup j s
unfolding write_file
write_file-others m k j bytes s h = elim (Option-cases (m.breaks k)) [
  | inl b ↦ ground (arith, lookup-insert k j bytes s)
  | inr (n, b) ↦ ground (arith, lookup-insert k j (take n bytes) s)
]

pub remove_file-held :
    (m : Mount) (k : String) (s : Objects)
    → (remove_file m k s).0 ≡ true
    → lookup k (remove_file m k s).1 ≡ none
unfolding remove_file
remove_file-held m k s h = ground (arith, lookup-delete k k s, eq_refl k)

pub remove_file-others :
    (m : Mount) (k j : String) (s : Objects)
    → (k == j) ≡ false
    → lookup j (remove_file m k s).1 ≡ lookup j s
unfolding remove_file
remove_file-others m k j s h = ground (arith, lookup-delete k j s)

-- A store of files: a key stands for the file that its parts lead to below the base.
pub record IsFileStore (base : String) (b : StorageBackend) : Type 0 where
  pub read-held :
      (k : String) (file : List String) (s : Objects) (bytes : Bytes)
      → Leads [] (parts (base ++ ("/" ++ k))) file
      → b.read_object k s ≡ some bytes
      → lookup ("/" ++ joined file) s ≡ some bytes
  pub write-held :
      (k : String) (file : List String) (bytes : Bytes) (s : Objects)
      → Leads [] (parts (base ++ ("/" ++ k))) file
      → (b.write_object k bytes s).0 ≡ true
      → lookup ("/" ++ joined file) (b.write_object k bytes s).1 ≡ some bytes
  pub write-others :
      (k j : String) (file : List String) (bytes : Bytes) (s : Objects)
      → Leads [] (parts (base ++ ("/" ++ k))) file
      → ("/" ++ joined file == j) ≡ false
      → lookup j (b.write_object k bytes s).1 ≡ lookup j s
  pub delete-held :
      (k : String) (file : List String) (s : Objects)
      → Leads [] (parts (base ++ ("/" ++ k))) file
      → (b.delete_object k s).0 ≡ true
      → lookup ("/" ++ joined file) (b.delete_object k s).1 ≡ none
  pub delete-others :
      (k j : String) (file : List String) (s : Objects)
      → Leads [] (parts (base ++ ("/" ++ k))) file
      → ("/" ++ joined file == j) ≡ false
      → lookup j (b.delete_object k s).1 ≡ lookup j s

-- Whatever the file system answers, a shared mount with an absolute base is a store of files. A key
-- stands for the file that its parts lead to from the base, so two keys may stand for one file: a read
-- answers this file, a write that succeeds leaves its bytes there, a removal that succeeds leaves no
-- file, and no call touches another file.
pub shared_mount-IsFileStore :
    (base : String) (m : Mount) → is_rooted base ≡ true → IsFileStore base (shared_mount base m)
unfolding shared_mount
shared_mount-IsFileStore base m h = record {
  read-held = λ k file s bytes l.
      rw (sym (join_path-Leads base k file h l)) (read_file-held m (join_path base k) s bytes);
  write-held = λ k file bytes s l.
      rw (sym (join_path-Leads base k file h l)) (write_file-held m (join_path base k) bytes s);
  write-others = λ k j file bytes s l.
      rw (sym (join_path-Leads base k file h l)) (write_file-others m (join_path base k) j bytes s);
  delete-held = λ k file s l.
      rw (sym (join_path-Leads base k file h l)) (remove_file-held m (join_path base k) s);
  delete-others = λ k j file s l.
      rw (sym (join_path-Leads base k file h l)) (remove_file-others m (join_path base k) j s);
}
