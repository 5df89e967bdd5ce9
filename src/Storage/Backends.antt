-- ===== src/Storage/Backends.antt =====
-- The interface `StorageBackend` and the configuration that chooses a backend. An object is the list
-- of its bytes. What is read is the whole object: an error of the reader while its bytes are written
-- elsewhere counts as an error of that write. `StatObject` is not modelled.
use sentrazero.Base.{
  ℕ, ◌≡◌, String, Bool, true, false, ◌||◌, Option, none, some, List, ◌==◌, if◌then◌else◌,
}
use sentrazero.Base.Dict.{Dict, lookup}
use sentrazero.Base.Letters.{to_lower}

abbrev pub Bytes : Type 0
Bytes = List ℕ

-- What a backend holds, by remote path; on a shared mount, by the path of the file.
abbrev pub Objects : Type 0
Objects = Dict Bytes

-- The answer of a write or a removal is whether it gave no error.
pub record StorageBackend : Type 0 where
  -- is it a `*SharedMountBackend`?
  pub is_shared_mount : Bool
  pub read_object : String → Objects → Option Bytes
  pub write_object : String → Bytes → Objects → Bool × Objects
  pub delete_object : String → Objects → Bool × Objects
  -- the keys below a prefix, sorted
  pub list_objects : String → Objects → Option (List String)

-- What the handlers rely on: a read answers what is held, a write that succeeds stores the bytes, a
-- removal that succeeds removes the object, and no call touches another object than its own.
pub record IsStore (b : StorageBackend) : Type 0 where
  pub read-held :
      (k : String) (s : Objects) (bytes : Bytes)
      → b.read_object k s ≡ some bytes
      → lookup k s ≡ some bytes
  pub write-held :
      (k : String) (bytes : Bytes) (s : Objects)
      → (b.write_object k bytes s).0 ≡ true
      → lookup k (b.write_object k bytes s).1 ≡ some bytes
  pub write-others :
      (k j : String) (bytes : Bytes) (s : Objects)
      → (k == j) ≡ false
      → lookup j (b.write_object k bytes s).1 ≡ lookup j s
  pub delete-held :
      (k : String) (s : Objects)
      → (b.delete_object k s).0 ≡ true
      → lookup k (b.delete_object k s).1 ≡ none
  pub delete-others :
      (k j : String) (s : Objects)
      → (k == j) ≡ false
      → lookup j (b.delete_object k s).1 ≡ lookup j s

pub record S3Credentials : Type 0 where
  pub access_key_id : String
  pub secret_access_key : String

pub record StorageConfig : Type 0 where
  pub storage_mode : String
  pub bucket_name : String
  pub endpoint : String
  pub mount_base_path : String
  -- `none` where there are none or they do not convert
  pub credentials : Option S3Credentials

unfoldable pub normalize_storage_mode : String → String
unfolding to_lower
normalize_storage_mode mode =
    let lower = to_lower mode in
    if lower == "aws_s3" || (lower == "s3" || lower == "s3_compatible")
    then "s3"
    else if lower == "gcs" || lower == "google_cloud_storage"
    then "gcs"
    else if lower == "azure_blob"
    then "azure_blob"
    else if lower == "shared_mount" || lower == "local"
    then "shared_mount"
    else if lower == "object_storage"
    then "s3"
    else mode

pub data BackendError : Type 0 where
  no_bucket no_endpoint no_credentials not_implemented unknown_mode no_mode : BackendError

-- The backend that a configuration asks for, before anything is contacted.
pub data Chosen : Type 0 where
  s3 : StorageConfig → S3Credentials → Chosen
  mount : String → Chosen
  refused : BackendError → Chosen

-- The base path of a shared mount; `mount_path` is SENTRA_MOUNT_PATH.
unfoldable pub mount_base : String → String → String
mount_base mount_path base =
    if base == "" then if mount_path == "" then "/data/sentra" else mount_path else base

unfoldable pub choose_s3 : StorageConfig → Chosen
choose_s3 cfg =
    if cfg.bucket_name == ""
    then refused no_bucket
    else if cfg.endpoint == ""
    then refused no_endpoint
    else elim cfg.credentials [
      | none ↦ refused no_credentials
      | some c ↦
          if c.access_key_id == "" || c.secret_access_key == ""
          then refused no_credentials
          else s3 cfg c
    ]

-- `NewBackend` of a configuration that is not nil.
unfoldable pub new_backend : String → StorageConfig → Chosen
unfolding normalize_storage_mode choose_s3 mount_base
new_backend mount_path cfg =
    let mode = normalize_storage_mode cfg.storage_mode in
    if mode == "s3"
    then choose_s3 cfg
    else if mode == "gcs" || mode == "azure_blob"
    then refused not_implemented
    else if mode == "shared_mount"
    then mount (mount_base mount_path cfg.mount_base_path)
    else if mode == ""
    then refused no_mode
    else refused unknown_mode
