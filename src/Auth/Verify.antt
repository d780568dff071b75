-- ===== src/Auth/Verify.antt =====
-- Verify and verifyES256 of auth/verify.go. Times are nanoseconds since the Unix epoch.
pub mod Verified
use packages_go.Prelude.{
  ℕ, Bool, false, not, ◌||◌, ◌&&◌, List, [], ◌∷◌, ◌++◌, Option, none, some, Bytes, codes, bytes_eq,
  is_empty, ◌==◌, if◌then◌else◌, length, take, drop,
}
use packages_go.Encoding.Base64.{decode, raw_url}
use packages_go.Errors.{Result, ok, err, fail}
use packages_go.Auth.Codes.{Code, invalid_token, invalid_signature}
use packages_go.Auth.Keys.{PublicKey, Fetched, Cache, signing_key, number_of}
use packages_go.Auth.Claims.{Config, Claims, Principal, validate_claims}

pub record Header : Type 0 where
  pub algorithm : Bytes
  pub key_id : Bytes

abbrev onto_first : ℕ → List Bytes → List Bytes
onto_first c [] = (c ∷ []) ∷ []
onto_first c (p ∷ ps) = (c ∷ p) ∷ ps

-- strings.Split(token, ".")
unfoldable pub split_dot : Bytes → List Bytes
split_dot [] = [] ∷ []
split_dot (c ∷ s) = let ps = split_dot s in if c == b'.' then [] ∷ ps else onto_first c ps

-- What this code takes from outside: encoding/json of the two parts, SHA-256, the curve and ECDSA.
pub record Primitives : Type 0 where
  pub header_of : Bytes → Option Header
  pub claims_of : Bytes → Option Claims
  pub sha256 : Bytes → Bytes
  pub on_curve : ℕ → ℕ → Bool
  pub ecdsa_verify : PublicKey → Bytes → ℕ → ℕ → Bool

module _ (prims : Primitives) where
  abbrev pub checked : PublicKey → Bytes → Option Bytes → Bool
  checked key input none = false
  checked key input (some signature) =
      (length signature == 64)
      && prims.ecdsa_verify key (prims.sha256 input) (number_of (take 32 signature))
          (number_of (drop 32 signature))

  unfoldable pub verify_es256 : PublicKey → Bytes → Bytes → Bool
  unfolding decode
  verify_es256 key input encoded = checked key input (decode raw_url encoded)

  abbrev pub with_claims : Config → ℕ → Option Claims → Result Code Principal
  with_claims c now none = fail invalid_token
  with_claims c now (some claims) = validate_claims c now claims

  abbrev pub with_payload : Config → ℕ → Option Bytes → Result Code Principal
  with_payload c now none = fail invalid_token
  with_payload c now (some payload) = with_claims c now (prims.claims_of payload)

  abbrev pub with_key :
      Config → ℕ → Bytes → Bytes → Bytes → Result Code PublicKey → Result Code Principal
  with_key c now first second third (err e) = err e
  with_key c now first second third (ok key) =
      if not (verify_es256 key (first ++ (b'.' ∷ second)) third)
      then fail invalid_signature
      else with_payload c now (decode raw_url second)

  abbrev pub with_header :
      Config
      → ℕ
      → ℕ
      → Bytes
      → Bytes
      → Bytes
      → Fetched
      → Cache
      → Option Header
      → Result Code Principal × Cache
  with_header c asked_at now first second third fetched cache none = (fail invalid_token, cache)
  with_header c asked_at now first second third fetched cache (some header) =
      if not (bytes_eq header.algorithm (codes "ES256")) || is_empty header.key_id
      then (fail invalid_token, cache)
      else let asked =
          signing_key prims.on_curve c.jwks_cache_ttl header.key_id asked_at fetched cache in
        (with_key c now first second third asked.0, asked.1)

  abbrev pub with_header_bytes :
      Config
      → ℕ
      → ℕ
      → Bytes
      → Bytes
      → Bytes
      → Fetched
      → Cache
      → Option Bytes
      → Result Code Principal × Cache
  with_header_bytes c asked_at now first second third fetched cache none =
      (fail invalid_token, cache)
  with_header_bytes c asked_at now first second third fetched cache (some bytes) =
      with_header c asked_at now first second third fetched cache (prims.header_of bytes)

  abbrev pub with_parts :
      Config → ℕ → ℕ → Fetched → Cache → List Bytes → Result Code Principal × Cache
  with_parts c asked_at now fetched cache (first ∷ second ∷ third ∷ []) =
      with_header_bytes c asked_at now first second third fetched cache (decode raw_url first)
  with_parts c asked_at now fetched cache _ = (fail invalid_token, cache)

  -- `fetched` is what the issuer answers if its keys are asked for; the clock is read for that at
  -- `asked_at` and for the claims at `now`.
  unfoldable pub verify : Config → Bytes → ℕ → ℕ → Fetched → Cache → Result Code Principal × Cache
  unfolding split_dot decode bytes_eq signing_key verify_es256 validate_claims
  verify c token asked_at now fetched cache =
      with_parts c asked_at now fetched cache (split_dot token)
