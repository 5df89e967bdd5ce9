-- ===== src/Plugin/Trust.antt =====
-- Which plugins pass the verification.
use sentrazero.Base.{
  ℕ, ◌≡◌, ◌≤◌, ◌⊎◌, ◌↔◌, inl, inr, refl, String, Bool, true, false, not, Option, none, some, List,
  length, ◌&&◌, ◌==◌, arith, Option-cases, Bool-cases,
}
use sentrazero.Plugin.Keys.{SignatureKey, KeyStore, is_past, is_key_valid}
use sentrazero.Plugin.Verify.{
  Crypto, Manifest, find_key, check_bytes, check_key, verify_plugin_signature, check_signed,
  verify_plugin_integrity, signing_key, verify_manifest_signature_from_env,
}

-- No instant, or one that is not past.
abbrev pub IsAhead : ℕ → Option ℕ → Type 0
IsAhead now none = Unit {0}
IsAhead now (some instant) = now ≤ instant

-- What a signature that passes is: of 64 bytes by a key that is known under the id, whose revocation and
-- expiry, if there are any, are not past.
abbrev pub IsSigned : Crypto → List ℕ → ℕ → KeyStore → Manifest → Type 0
IsSigned c bytes now s m =
    (key : SignatureKey) × (signature : List ℕ) × (find_key m.signature_key_id now s ≡ some key)
    × IsAhead now key.revoked_at
    × IsAhead now key.expires_at
    × (c.decode_base64 m.signature ≡ some signature)
    × (length signature ≡ 64)
    × (c.verify key.public_key (c.sha256 bytes) signature ≡ true)

-- The manifest names a checksum, a signature and its key, the plugin's bytes have that checksum, and the
-- signature is theirs.
abbrev pub IsAttested : Crypto → Option (List ℕ) → ℕ → KeyStore → Manifest → Type 0
IsAttested c file now s m =
    (bytes : List ℕ) × (file ≡ some bytes)
    × ((m.checksum == "") ≡ false)
    × ((m.signature == "") ≡ false)
    × ((m.signature_key_id == "") ≡ false)
    × ((c.to_hex (c.sha256 bytes) == m.checksum) ≡ true)
    × IsSigned c bytes now s m

past-IsAhead : (now : ℕ) (instant : Option ℕ) → is_past now instant ≡ false → IsAhead now instant
past-IsAhead now none h = tt
past-IsAhead now (some instant) h = ground (arith, h)

IsAhead-past : (now : ℕ) (instant : Option ℕ) → IsAhead now instant → is_past now instant ≡ false
IsAhead-past now none h = refl
IsAhead-past now (some instant) h = ground (arith, h)

valid-IsAhead :
    (now : ℕ) (key : SignatureKey)
    → is_key_valid now key ≡ true
    → IsAhead now key.revoked_at × IsAhead now key.expires_at
unfolding is_key_valid
valid-IsAhead now key h = (
  past-IsAhead now key.revoked_at (ground (arith, h)),
  past-IsAhead now key.expires_at (ground (arith, h)),
)

IsAhead-valid :
    (now : ℕ) (key : SignatureKey)
    → IsAhead now key.revoked_at
    → IsAhead now key.expires_at
    → is_key_valid now key ≡ true
unfolding is_key_valid
IsAhead-valid now key r e =
    ground (arith, IsAhead-past now key.revoked_at r, IsAhead-past now key.expires_at e)

bytes_lem :
    (c : Crypto) (bytes : List ℕ) (key : SignatureKey) (signature : List ℕ)
    → check_bytes c (some bytes) key signature ≡ none
    → (length signature ≡ 64) × (c.verify key.public_key (c.sha256 bytes) signature ≡ true)
unfolding check_bytes
bytes_lem c bytes key signature h = ground (arith, h)

key_lem :
    (c : Crypto) (file : Option (List ℕ)) (now : ℕ) (signature : String) (key : SignatureKey)
    → check_key c file now signature key ≡ none
    → (is_key_valid now key ≡ true)
      × ((bytes : List ℕ) × (c.decode_base64 signature ≡ some bytes)
          × (check_bytes c file key bytes ≡ none))
unfolding check_key
key_lem c file now signature key h = elim (Option-cases (c.decode_base64 signature)) [
  | inl e ↦ ground (arith, h, e)
  | inr (bytes, e) ↦ (ground (arith, h, e), (bytes, e, ground (arith, h, e)))
]

signature_lem :
    (c : Crypto) (bytes : List ℕ) (now : ℕ) (s : KeyStore) (m : Manifest)
    → verify_plugin_signature c (some bytes) now s m.signature m.signature_key_id ≡ none
    → IsSigned c bytes now s m
unfolding verify_plugin_signature
signature_lem c bytes now s m h = elim (Option-cases (find_key m.signature_key_id now s)) [
  | inl e ↦ ground (arith, h, e)
  | inr (key, e) ↦
      let checked = key_lem c (some bytes) now m.signature key (ground (arith, h, e)) in
      let sized = bytes_lem c bytes key checked.1.0 checked.1.2 in
      let (revoked, expired) = valid-IsAhead now key checked.0 in
      (key, checked.1.0, e, revoked, expired, checked.1.1, sized.0, sized.1)
]

opened_lem :
    (c : Crypto) (bytes : List ℕ) (now : ℕ) (s : KeyStore) (m : Manifest)
    → check_signed c (some bytes) now s m ≡ none
    → ((m.signature == "") ≡ false)
      × ((m.signature_key_id == "") ≡ false)
      × ((c.to_hex (c.sha256 bytes) == m.checksum) ≡ true)
      × (verify_plugin_signature c (some bytes) now s m.signature m.signature_key_id ≡ none)
unfolding check_signed
opened_lem c bytes now s m h = ground (arith, h)

checked_lem :
    (c : Crypto) (file : Option (List ℕ)) (now : ℕ) (s : KeyStore) (m : Manifest)
    → (m.checksum == "") ≡ false
    → check_signed c file now s m ≡ none
    → IsAttested c file now s m
unfolding check_signed
checked_lem c none now s m sum h = ground (arith, h)
checked_lem c (some bytes) now s m sum h =
    let (named, keyed, same, rest) = opened_lem c bytes now s m h in
    (bytes, refl, sum, named, keyed, same, signature_lem c bytes now s m rest)

attested_lem :
    (c : Crypto) (file : Option (List ℕ)) (now : ℕ) (s : KeyStore) (m : Manifest)
    → IsAttested c file now s m
    → check_signed c file now s m ≡ none
unfolding check_signed verify_plugin_signature check_key check_bytes
attested_lem c file now s m
      (
        bytes,
        there,
        sum,
        named,
        keyed,
        same,
        (key, signature, found, revoked, expired, decoded, size, verified),
      ) =
    ground (
      arith,
      there,
      named,
      keyed,
      same,
      found,
      IsAhead-valid now key revoked expired,
      decoded,
      size,
      verified,
    )

-- A plugin passes the check of its integrity exactly where it is trusted and unsigned and signatures are
-- not strict, or its manifest names a checksum, a signature and its key, its bytes have this checksum,
-- and the signature is one of 64 bytes over them by a key that is known under the id and whose
-- revocation and expiry, if there are any, are not past.
pub integrity-IsAttested :
    (c : Crypto) (strict : Bool) (file : Option (List ℕ)) (now : ℕ) (s : KeyStore) (m : Manifest)
    → (verify_plugin_integrity c strict file now s m ≡ none)
      ↔ (((m.trusted && (m.signature == "" && not strict)) ≡ true) ⊎ IsAttested c file now s m)
unfolding verify_plugin_integrity
integrity-IsAttested c strict file now s m = (
  λ h. elim (Bool-cases (m.trusted && (m.signature == "" && not strict))) [
    | inl e ↦ inl e
    | inr e ↦ inr (checked_lem c file now s m (ground (arith, h, e)) (ground (arith, h, e)))
  ],
  λ h. elim h [
    | inl e ↦ rw (e, verify_plugin_integrity) refl
    | inr a ↦ ground (arith, attested_lem c file now s m a, a.2)
  ],
)

-- Where the environment has a signing key for a manifest's key id, the registered keys, their
-- revocations and expiries, and the clock play no part in the verification of the manifest.
pub env_key_overrides :
    (c : Crypto) (env_key : String → String) (strict : Bool) (file : Option (List ℕ))
    (now later : ℕ) (s t : KeyStore) (m : Manifest)
    → (env_key m.signature_key_id == "") ≡ false
    → verify_manifest_signature_from_env c env_key strict file now s m
      ≡ verify_manifest_signature_from_env c env_key strict file later t m
unfolding verify_manifest_signature_from_env signing_key
env_key_overrides c env_key strict file now later s t m h =
    rw (h, verify_manifest_signature_from_env, signing_key) refl
