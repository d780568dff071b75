-- ===== src/Auth/Keys.antt =====
-- auth/jwks.go: the cache of the issuer's signing keys. Times are nanoseconds since the Unix epoch.
pub mod Known
use packages_go.Prelude.{
  ℕ, ◌+◌, ◌-◌, ◌*◌, ◌^◌, Bool, false, not, ◌||◌, ◌&&◌, List, [], ◌∷◌, Option, none, some, Bytes,
  codes, bytes_eq, is_empty, leb, if◌then◌else◌, min,
}
use packages_go.Encoding.Base64.{decode, raw_url}
use packages_go.Errors.{Result, ok, fail}
use packages_go.Auth.Codes.{Code, invalid_signature, jwks_unavailable}

-- A point of the curve P-256.
pub record PublicKey : Type 0 where
  pub x : ℕ
  pub y : ℕ

pub record Jwk : Type 0 where
  pub key_type : Bytes
  pub curve : Bytes
  pub alg : Bytes
  pub use_for : Bytes
  pub key_id : Bytes
  pub x : Bytes
  pub y : Bytes

-- What the GET of jwks.json comes to: no response, a status other than 200, a body that is no
-- document, or a document.
pub data Fetched : Type 0 where
  unreachable bad_status undecodable : Fetched
  document : List Jwk → Fetched

-- The map of keys, the latest entry of an ID first.
abbrev pub Keys : Type 0
Keys = List (Bytes × PublicKey)

unfoldable pub lookup : Bytes → Keys → Option PublicKey
unfolding bytes_eq
lookup kid [] = none
lookup kid (entry ∷ rest) =
    let later = lookup kid rest in if bytes_eq entry.0 kid then some entry.1 else later

pub record Cache : Type 0 where
  pub keys : Keys
  pub fetched_at : ℕ

-- new(big.Int).SetBytes
unfoldable pub number_from : ℕ → Bytes → ℕ
number_from acc [] = acc
number_from acc (c ∷ s) = number_from (acc * 256 + c) s

abbrev pub number_of : Bytes → ℕ
number_of s = number_from 0 s

abbrev pub is_signing_key : Jwk → Bool
is_signing_key k =
    bytes_eq k.key_type (codes "EC")
    && (bytes_eq k.curve (codes "P-256")
        && (bytes_eq k.alg (codes "ES256")
            && ((is_empty k.use_for || bytes_eq k.use_for (codes "sig"))
                && not (is_empty k.key_id))))

-- on_curve: elliptic.P256().IsOnCurve
module _ (on_curve : ℕ → ℕ → Bool) where
  abbrev pub point : Option Bytes → Option Bytes → Option PublicKey
  point (some x) (some y) =
      let key : PublicKey = record { x = number_of x; y = number_of y } in
      if is_empty x || (is_empty y || not (on_curve key.x key.y)) then none else some key
  point _ _ = none

  unfoldable pub parse_p256_key : Jwk → Option PublicKey
  unfolding decode number_from
  parse_p256_key k = point (decode raw_url k.x) (decode raw_url k.y)

  abbrev pub with_key : Bytes → Option PublicKey → Keys → Option Keys
  with_key kid none keys = none
  with_key kid (some key) keys = some ((kid, key) ∷ keys)

  -- The loop over the keys of a document, `none` for a signing key that cannot be parsed.
  unfoldable pub read_keys : List Jwk → Keys → Option Keys
  unfolding parse_p256_key bytes_eq
  read_keys [] keys = some keys
  read_keys (k ∷ ks) keys =
      let skipped = read_keys ks keys in
      let added : Option Keys = elim (with_key k.key_id (parse_p256_key k) keys) [
        | none ↦ none
        | some more ↦ read_keys ks more
      ] in
      if is_signing_key k then added else skipped

  abbrev pub some_keys : Option Keys → Option Keys
  some_keys none = none
  some_keys (some keys) = if is_empty keys then none else some keys

  unfoldable pub fetch_jwks : Fetched → Option Keys
  unfolding read_keys
  fetch_jwks (document ks) = some_keys (read_keys ks [])
  fetch_jwks _ = none

  -- time.Time.Sub saturates at the largest duration; a clock that went back gives no more than 0.
  abbrev pub age : ℕ → ℕ → ℕ
  age now fetched_at = min (now - fetched_at) (2 ^ 63 - 1)

  abbrev pub published : Option PublicKey → Result Code PublicKey
  published none = fail invalid_signature
  published (some key) = ok key

  -- A key that is known is kept while the issuer cannot be asked.
  abbrev pub stale : Option PublicKey → Result Code PublicKey
  stale none = fail jwks_unavailable
  stale (some key) = ok key

  abbrev pub after_fetch :
      Bytes → ℕ → Option PublicKey → Cache → Option Keys → Result Code PublicKey × Cache
  after_fetch kid now known cache none = (stale known, cache)
  after_fetch kid now known cache (some keys) =
      (published (lookup kid keys), record { keys = keys; fetched_at = now })

  abbrev pub is_fresh : ℕ → ℕ → Option PublicKey → Cache → Bool
  is_fresh ttl now none cache = false
  is_fresh ttl now (some key) cache = leb (age now cache.fetched_at) ttl

  -- `fetched` is what the issuer answers if it is asked.
  unfoldable pub signing_key : ℕ → Bytes → ℕ → Fetched → Cache → Result Code PublicKey × Cache
  unfolding fetch_jwks lookup
  signing_key ttl kid now fetched cache =
      let known = lookup kid cache.keys in
      if is_fresh ttl now known cache
      then (stale known, cache)
      else after_fetch kid now known cache (fetch_jwks fetched)
