-- ===== src/Plugin/Keys.antt =====
-- The signature keys of internal/plugin/verify.go: the registered ones and the cache in front of them.
-- A time is a number of nanoseconds, and bytes are numbers.
use sentrazero.Base.{
  ℕ, ◌-◌, ◌*◌, String, Bool, false, not, Option, none, some, List, [], ◌&&◌, ◌==◌, ltb,
  if◌then◌else◌,
}
use sentrazero.Base.Int.{ℤ, is_positive, pos_part}
use sentrazero.Base.Dict.{Dict, lookup, insert, delete}

-- The zero time of an expiry or a revocation is none.
pub record SignatureKey : Type 0 where
  pub key_id : String
  pub public_key : List ℕ
  pub expires_at : Option ℕ
  pub revoked_at : Option ℕ

pub record CachedKey : Type 0 where
  pub key : SignatureKey
  pub fetched_at : ℕ

pub record KeyCache : Type 0 where
  pub keys : Dict CachedKey
  pub ttl : ℕ

abbrev pub default_key_ttl : ℕ
default_key_ttl = 3600 * 1_000_000_000

unfoldable pub new_key_cache : ℤ → KeyCache
new_key_cache ttl = record {
  keys = [];
  ttl = if is_positive ttl then pos_part ttl else default_key_ttl;
}

unfoldable pub get_cached : String → ℕ → KeyCache → Option SignatureKey
get_cached key_id now c = elim (lookup key_id c.keys) [
  | none ↦ none
  | some cached ↦ if ltb c.ttl (now - cached.fetched_at) then none else some cached.key
]

unfoldable pub set_cached : String → SignatureKey → ℕ → KeyCache → KeyCache
set_cached key_id key now c = record c {
  keys = insert key_id (record { key = key; fetched_at = now }) c.keys;
}

unfoldable pub invalidate_cached : String → KeyCache → KeyCache
invalidate_cached key_id c = record c { keys = delete key_id c.keys }

unfoldable pub clear_cache : KeyCache → KeyCache
clear_cache c = record c { keys = [] }

pub record KeyStore : Type 0 where
  pub signature_keys : Dict SignatureKey
  pub cache : KeyCache

-- A key is registered once; a later one of the same id is passed over.
unfoldable pub register_signature_key : SignatureKey → KeyStore → KeyStore
unfolding invalidate_cached
register_signature_key key s =
    if key.key_id == "" then s else elim (lookup key.key_id s.signature_keys) [
      | some present ↦ s
      | none ↦ record {
        signature_keys = insert key.key_id key s.signature_keys;
        cache = invalidate_cached key.key_id s.cache;
      }
    ]

unfoldable pub get_signature_key : String → KeyStore → Option SignatureKey
get_signature_key key_id s = lookup key_id s.signature_keys

-- `!t.IsZero() && time.Since(t) > 0`
abbrev pub is_past : ℕ → Option ℕ → Bool
is_past now none = false
is_past now (some instant) = ltb instant now

unfoldable pub is_key_valid : ℕ → SignatureKey → Bool
is_key_valid now key = not (is_past now key.revoked_at) && not (is_past now key.expires_at)
