-- ===== src/Tests/Plugins.antt =====
-- A signed plugin, its key, and three versions.
use sentrazero.Base.{
  ℕ, zero, suc, ◌≡◌, ◌⊎◌, ◌↔◌, refl, true, false, not, ◌&&◌, ◌==◌, none, some, List, [], ◌∷◌,
}
use sentrazero.Base.Int.{pos}
use sentrazero.Base.Dict.{lookup}
use sentrazero.Plugin.Keys.{SignatureKey, KeyStore, is_key_valid, default_key_ttl}
use sentrazero.Plugin.Verify.{Crypto, Manifest, verify_plugin_integrity}
use sentrazero.Plugin.Versions.{parse_semver, is_newer_version}
use sentrazero.Plugin.Trust.{IsAttested, integrity-IsAttested}
use sentrazero.Plugin.Order.{is_newer_version_order}

abbrev key : SignatureKey
key = record { key_id = "key-1"; public_key = 7 ∷ []; expires_at = none; revoked_at = some 900 }

abbrev store : KeyStore
store = record {
  signature_keys = ("key-1", key) ∷ [];
  cache = record { keys = []; ttl = default_key_ttl };
}

abbrev zeros : ℕ → List ℕ
zeros zero = []
zeros (suc n) = 0 ∷ zeros n

-- A scheme in which 64 zeros sign everything.
abbrev crypto : Crypto
crypto = record {
  decode_base64 = λ text. some (zeros 64);
  sha256 = λ bytes. bytes;
  to_hex = λ bytes. "ab";
  verify = λ public message signature. true;
}

abbrev manifest : Manifest
manifest = record {
  filename = "plugin.py";
  checksum = "ab";
  signature = "AAAA";
  signature_key_id = "key-1";
  trusted = true;
}

passes : verify_plugin_integrity crypto false (some (1 ∷ [])) 500 store manifest ≡ none
unfolding verify_plugin_integrity lookup is_key_valid
passes = refl

integrity-IsAttested_example :
    (verify_plugin_integrity crypto false (some (1 ∷ [])) 500 store manifest ≡ none) ↔ (
      ((manifest.trusted && (manifest.signature == "" && not false)) ≡ true)
      ⊎ IsAttested crypto (some (1 ∷ [])) 500 store manifest)
integrity-IsAttested_example = integrity-IsAttested crypto false (some (1 ∷ [])) 500 store manifest

parsed : parse_semver "1.2.10-beta" ≡ some (record { major = pos 1; minor = pos 2; patch = pos 10 })
unfolding parse_semver
parsed = refl

is_newer_version_order_example :
    (is_newer_version "1.2.9" "1.2.9" ≡ false) × (is_newer_version "2.0.0" "1.2.9" ≡ true)
unfolding parse_semver is_newer_version
is_newer_version_order_example =
    is_newer_version_order "1.2.9" "1.2.10" "2.0.0"
      (record { major = pos 1; minor = pos 2; patch = pos 9 })
      (record { major = pos 1; minor = pos 2; patch = pos 10 })
      (record { major = pos 2; minor = pos 0; patch = pos 0 }) refl refl refl refl refl refl refl
