-- ===== src/Plugin/Verify.antt =====
-- VerifyPluginSignature and VerifyPluginIntegrity of internal/plugin/verify.go, and
-- verifyManifestSignatureFromEnv of internal/plugin/manager.go. Base64, SHA-256 and Ed25519 are arguments;
-- a public key of a wrong length, on which Ed25519 panics, is not modelled. The code reads the file once for
-- the checksum and once for the signature; here it is read once.
use sentrazero.Base.{
  ℕ, String, Bool, not, Option, none, some, List, length, ◌&&◌, ◌||◌, ◌==◌, nat_eq, if◌then◌else◌,
}
use sentrazero.Plugin.Keys.{SignatureKey, KeyStore, get_cached, get_signature_key, is_key_valid}

pub record Crypto : Type 0 where
  pub decode_base64 : String → Option (List ℕ)
  pub sha256 : List ℕ → List ℕ
  pub to_hex : List ℕ → String
  -- the public key, the message and the signature
  pub verify : List ℕ → List ℕ → List ℕ → Bool

pub record Manifest : Type 0 where
  pub filename : String
  pub checksum : String
  pub signature : String
  pub signature_key_id : String
  pub trusted : Bool

pub data VerifyError : Type 0 where
  signature_missing key_id_missing key_not_found key_invalid bad_encoding : VerifyError
  bad_size unreadable bad_signature checksum_missing checksum_mismatch : VerifyError
  bad_key filename_missing : VerifyError

-- The cached key, and the registered one where none is cached.
unfoldable pub find_key : String → ℕ → KeyStore → Option SignatureKey
unfolding get_cached get_signature_key
find_key key_id now s = elim (get_cached key_id now s.cache) [
  | none ↦ get_signature_key key_id s
  | some key ↦ some key
]

-- From the decoded signature on; `file` is the plugin's bytes, where it can be read.
unfoldable pub check_bytes : Crypto → Option (List ℕ) → SignatureKey → List ℕ → Option VerifyError
check_bytes c file key signature =
    if not (nat_eq (length signature) 64) then some bad_size else elim file [
      | none ↦ some unreadable
      | some bytes ↦
          if c.verify key.public_key (c.sha256 bytes) signature then none else some bad_signature
    ]

unfoldable pub check_key : Crypto → Option (List ℕ) → ℕ → String → SignatureKey → Option VerifyError
unfolding check_bytes
check_key c file now signature key =
    if not (is_key_valid now key) then some key_invalid else elim (c.decode_base64 signature) [
      | none ↦ some bad_encoding
      | some bytes ↦ check_bytes c file key bytes
    ]

unfoldable pub verify_plugin_signature :
    Crypto → Option (List ℕ) → ℕ → KeyStore → String → String → Option VerifyError
unfolding find_key check_key
verify_plugin_signature c file now s signature key_id =
    if signature == ""
    then some signature_missing
    else if key_id == ""
    then some key_id_missing
    else elim (find_key key_id now s) [
      | none ↦ some key_not_found
      | some key ↦ check_key c file now signature key
    ]

unfoldable pub check_signed :
    Crypto → Option (List ℕ) → ℕ → KeyStore → Manifest → Option VerifyError
unfolding verify_plugin_signature
check_signed c file now s m = elim file [
  | none ↦ some unreadable
  | some bytes ↦
      if not (c.to_hex (c.sha256 bytes) == m.checksum)
      then some checksum_mismatch
      else if m.signature == "" || m.signature_key_id == ""
      then some signature_missing
      else verify_plugin_signature c (some bytes) now s m.signature m.signature_key_id
]

-- A trusted plugin without a signature is not looked at, unless signatures are strict.
unfoldable pub verify_plugin_integrity :
    Crypto → Bool → Option (List ℕ) → ℕ → KeyStore → Manifest → Option VerifyError
unfolding check_signed
verify_plugin_integrity c strict file now s m =
    if m.trusted && (m.signature == "" && not strict)
    then none
    else if m.checksum == ""
    then some checksum_missing
    else check_signed c file now s m

-- The public key in base64: the environment's, and a valid registered key otherwise. The key's bytes are
-- decoded again at once, so they are kept as they are.
unfoldable pub signing_key : Crypto → (String → String) → ℕ → KeyStore → String → Option (List ℕ)
unfolding get_signature_key
signing_key c env_key now s key_id =
    if env_key key_id == ""
    then elim (get_signature_key key_id s) [
      | none ↦ none
      | some key ↦ if is_key_valid now key then some key.public_key else none
    ]
    else c.decode_base64 (env_key key_id)

unfoldable pub check_manifest_bytes :
    Crypto → Option (List ℕ) → Manifest → List ℕ → Option VerifyError
check_manifest_bytes c file m key =
    if not (nat_eq (length key) 32) then some bad_key else elim (c.decode_base64 m.signature) [
      | none ↦ some bad_encoding
      | some signature ↦ if m.filename == "" then some filename_missing else elim file [
        | none ↦ some unreadable
        | some bytes ↦ if c.verify key (c.sha256 bytes) signature then none else some bad_signature
      ]
    ]

-- `env_key` is the value of PLUGIN_SIGNING_KEY_<ID> for a key id, empty where it is not set. A value that
-- is no base64 and a missing key are one error here.
unfoldable pub verify_manifest_signature_from_env :
    Crypto
    → (String → String)
    → Bool
    → Option (List ℕ)
    → ℕ
    → KeyStore
    → Manifest
    → Option VerifyError
unfolding signing_key check_manifest_bytes
verify_manifest_signature_from_env c env_key strict file now s m =
    if m.signature == ""
    then if m.trusted && not strict then none else some signature_missing
    else if m.signature_key_id == ""
    then some key_id_missing
    else elim (signing_key c env_key now s m.signature_key_id) [
      | none ↦ some key_not_found
      | some key ↦ check_manifest_bytes c file m key
    ]
