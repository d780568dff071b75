-- ===== src/Auth/Tests.antt =====
-- Concrete keys, claims and a token for the code of auth/, and the theorem on them.
use packages_go.Prelude.{
  ℕ, ◌+◌, ◌*◌, ◌≡◌, refl, Bool, true, [], ◌∷◌, Option, none, some, Bytes, codes, bytes_eq,
  has_prefix, ℤ, pos, negsuc, if◌then◌else◌, ◌==◌, ◌&&◌,
}
use packages_go.Encoding.Base64.{decode}
use packages_go.Errors.{ok, fail}
use packages_go.Auth.Codes.{
  token_expired, token_not_yet_valid, token_issued_in_future, invalid_signature, jwks_unavailable,
}
use packages_go.Auth.Keys.{
  PublicKey, Jwk, unreachable, bad_status, document, Cache, lookup, number_from, parse_p256_key,
  read_keys, fetch_jwks, signing_key,
}
use packages_go.Auth.Subject.{subject_id, is_ulid, is_uuid, fits, times}
use packages_go.Auth.Claims.{
  Config, Claims, principal_of, contains, unix_second, is_past, is_ahead, validate_claims,
}
use packages_go.Auth.Verify.{Primitives, split_dot, verify_es256, verify}
use packages_go.Auth.Verify.Verified.{IsVerified, verify-IsVerified}

abbrev some_ulid : Bytes
some_ulid = codes "01ARZ3NDEKTSV4RRFFQ69G5FAV"

subject_test :
    (subject_id (codes "user:01ARZ3NDEKTSV4RRFFQ69G5FAV") ≡ some some_ulid)
    × (subject_id (codes "user:81ARZ3NDEKTSV4RRFFQ69G5FAV") ≡ none)
    × (subject_id (codes "user:6f9619ff-8b86-4011-b42d-00CF4FC964FF")
        ≡ some (codes "6f9619ff-8b86-4011-b42d-00CF4FC964FF"))
    × (subject_id (codes "user:6f9619ff-8b86-9011-b42d-00cf4fc964ff") ≡ none)
    × (subject_id (codes "6f9619ff-8b86-4011-b42d-00cf4fc964ff") ≡ none)
unfolding subject_id has_prefix is_ulid is_uuid fits times
subject_test = (refl, refl, refl, refl, refl)

abbrev some_jwk : Jwk
some_jwk = record {
  key_type = codes "EC";
  curve = codes "P-256";
  alg = codes "ES256";
  use_for = [];
  key_id = codes "k1";
  x = codes "AQA";
  y = codes "Ag";
}

abbrev some_key : PublicKey
some_key = record { x = 256; y = 2 }

abbrev any_point : ℕ → ℕ → Bool
any_point x y = true

abbrev empty_cache : Cache
empty_cache = record { keys = []; fetched_at = 0 }

abbrev full_cache : Cache
full_cache = record { keys = (codes "k1", some_key) ∷ []; fetched_at = 10 }

-- A cold cache is filled, a fresh one is not asked for, and a stale key is kept while the issuer is
-- down, but not when the issuer no longer publishes it.
signing_key_test :
    (signing_key any_point 5 (codes "k1") 10 (document (some_jwk ∷ [])) empty_cache
      ≡ (ok some_key, full_cache))
    × (signing_key any_point 5 (codes "k1") 15 (document []) full_cache ≡ (ok some_key, full_cache))
    × (signing_key any_point 5 (codes "k1") 16 bad_status full_cache ≡ (ok some_key, full_cache))
    × (signing_key any_point 5 (codes "k2") 15 unreachable full_cache
        ≡ (fail jwks_unavailable, full_cache))
    × ((signing_key any_point 5 (codes "k2") 15 (document (some_jwk ∷ [])) full_cache).0
        ≡ fail invalid_signature)
unfolding signing_key fetch_jwks read_keys parse_p256_key number_from lookup bytes_eq decode
signing_key_test = (refl, refl, refl, refl, refl)

abbrev second_of : ℕ → ℕ
second_of s = s * 1000000000

abbrev some_config : Config
some_config = record {
  issuer = codes "https://issuer";
  resource = codes "https://api";
  clock_skew = second_of 30;
  jwks_cache_ttl = second_of 300;
}

abbrev some_claims : Option ℤ → ℤ → ℤ → Claims
some_claims not_before issued expires = record {
  issuer = codes "https://issuer";
  subject = codes "user:01ARZ3NDEKTSV4RRFFQ69G5FAV";
  audience = codes "https://web" ∷ codes "https://api" ∷ [];
  mode = codes "access";
  claim_type = codes "user";
  roles = codes "admin" ∷ [];
  issued_at = some issued;
  not_before = not_before;
  expires_at = some expires;
  user_id = some_ulid;
  email = codes "a@example.com";
  name = codes "A";
  image = [];
}

abbrev good_claims : Claims
good_claims = some_claims none (pos 1000) (pos 1900)

-- Both bounds of the skew are inclusive.
times_test :
    (validate_claims some_config (second_of 1930) good_claims ≡ ok (principal_of good_claims))
    × (validate_claims some_config (second_of 1930 + 1) good_claims ≡ fail token_expired)
    × (validate_claims some_config (second_of 970) good_claims ≡ ok (principal_of good_claims))
    × (validate_claims some_config (second_of 969) good_claims ≡ fail token_issued_in_future)
    × (validate_claims some_config
          (second_of 1000)
          (some_claims (some (pos 1031)) (pos 1000) (pos 1900))
        ≡ fail token_not_yet_valid)
    × (validate_claims some_config (second_of 1000) (some_claims none (pos 1000) (negsuc 0))
        ≡ fail token_expired)
unfolding validate_claims contains bytes_eq is_past is_ahead unix_second subject_id has_prefix
    is_ulid is_uuid fits times
times_test = (refl, refl, refl, refl, refl, refl)

-- The largest expiration wraps around in time.Unix to a moment long past.
expires_wraps :
    validate_claims some_config
      (second_of 1000)
      (some_claims none (pos 1000) (pos 9223372036854775807))
    ≡ fail token_expired
unfolding validate_claims contains bytes_eq is_past is_ahead unix_second
expires_wraps = refl

split_dot_test : split_dot (codes "a..b") ≡ codes "a" ∷ [] ∷ codes "b" ∷ []
unfolding split_dot
split_dot_test = refl

-- JSON texts are "h" for the header and "c" for the claims; ECDSA accepts r = 1 with any s.
abbrev some_primitives : Primitives
some_primitives = record {
  header_of = λ s.
      if bytes_eq s (codes "h")
      then some (record { algorithm = codes "ES256"; key_id = codes "k1" })
      else none;
  claims_of = λ s. if bytes_eq s (codes "c") then some good_claims else none;
  sha256 = λ s. s;
  on_curve = any_point;
  ecdsa_verify = λ key digest r s. bytes_eq digest (codes "aA.Yw") && (r == 1);
}

abbrev some_token : Bytes
some_token =
    codes
      "aA.Yw.AAAAAAAAAAAAAAAAAAAAAAAAAAAAAAAAAAAAAAAAAAEAAAAAAAAAAAAAAAAAAAAAAAAAAAAAAAAAAAAAAAAAAA"

verify_test :
    verify some_primitives some_config some_token 10
      (second_of 1000)
      (document (some_jwk ∷ []))
      empty_cache
    ≡ (ok (principal_of good_claims), full_cache)
unfolding verify split_dot decode bytes_eq signing_key verify_es256 validate_claims fetch_jwks
    read_keys parse_p256_key number_from lookup contains is_past is_ahead unix_second subject_id
    has_prefix is_ulid is_uuid fits times
verify_test = refl

-- The signature covers the parts as they were sent.
altered_test :
    (verify some_primitives some_config
      (codes
        "aA.YwA.AAAAAAAAAAAAAAAAAAAAAAAAAAAAAAAAAAAAAAAAAAEAAAAAAAAAAAAAAAAAAAAAAAAAAAAAAAAAAAAAAAAAAA")
      10
      (second_of 1000)
      (document (some_jwk ∷ []))
      empty_cache).0
    ≡ fail invalid_signature
unfolding verify split_dot decode bytes_eq signing_key verify_es256 fetch_jwks read_keys
    parse_p256_key number_from lookup
altered_test = refl

verify-IsVerified_example :
    IsVerified some_primitives some_config 10
      (second_of 1000)
      (document (some_jwk ∷ []))
      empty_cache
      some_token
      (principal_of good_claims)
verify-IsVerified_example =
    verify-IsVerified some_primitives some_config 10 (second_of 1000) (document (some_jwk ∷ []))
      empty_cache some_token (principal_of good_claims) full_cache verify_test
