-- ===== src/Auth/Claims.antt =====
-- validateClaims of auth/verify.go. Times are nanoseconds since the Unix epoch.
pub mod Valid
use packages_go.Prelude.{
  ℕ, ◌+◌, ◌-◌, ◌*◌, ◌^◌, Bool, false, not, ◌||◌, List, [], ◌∷◌, Option, none, some, Bytes, codes,
  bytes_eq, is_empty, ltb, if◌then◌else◌, ℤ, pos, negsuc, pos_part, neg_part,
}
use packages_go.Errors.{Result, ok, fail}
use packages_go.Auth.Codes.{
  Code, invalid_token, wrong_issuer, wrong_audience, token_expired, token_not_yet_valid,
  token_issued_in_future,
}
use packages_go.Auth.Subject.{subject_id}

-- The fields of Config that are read here.
pub record Config : Type 0 where
  pub issuer : Bytes
  pub resource : Bytes
  pub clock_skew : ℕ
  pub jwks_cache_ttl : ℕ

-- The claims as encoding/json reads them; `aud` is a string or a list of strings.
pub record Claims : Type 0 where
  pub issuer : Bytes
  pub subject : Bytes
  pub audience : List Bytes
  pub mode : Bytes
  pub claim_type : Bytes
  pub roles : List Bytes
  pub issued_at : Option ℤ
  pub not_before : Option ℤ
  pub expires_at : Option ℤ
  pub user_id : Bytes
  pub email : Bytes
  pub name : Bytes
  pub image : Bytes

pub record Principal : Type 0 where
  pub subject : Bytes
  pub user_id : Bytes
  pub email : Bytes
  pub name : Bytes
  pub image : Bytes
  pub roles : List Bytes
  pub audiences : List Bytes

unfoldable pub contains : List Bytes → Bytes → Bool
unfolding bytes_eq
contains [] wanted = false
contains (v ∷ vs) wanted = bytes_eq v wanted || contains vs wanted

-- The second of the Unix epoch that time.Unix makes of an int64: it adds the seconds from year 1 to
-- 1970, which wraps around.
unfoldable pub unix_second : ℤ → ℤ
unix_second (pos s) = if ltb (2 ^ 63 - 1 - 62135596800) s then negsuc (2 ^ 64 - s - 1) else pos s
unix_second (negsuc s) = negsuc s

abbrev pub nanoseconds : ℕ
nanoseconds = 10 ^ 9

-- now.After(time.Unix(at, 0).Add(skew))
unfoldable pub is_past : ℕ → ℕ → ℤ → Bool
unfolding unix_second
is_past now skew at =
    ltb (pos_part (unix_second at) * nanoseconds + skew)
      (now + neg_part (unix_second at) * nanoseconds)

-- now.Add(skew).Before(time.Unix(at, 0))
unfoldable pub is_ahead : ℕ → ℕ → ℤ → Bool
unfolding unix_second
is_ahead now skew at =
    ltb (now + skew + neg_part (unix_second at) * nanoseconds)
      (pos_part (unix_second at) * nanoseconds)

abbrev pub ahead_if_set : ℕ → ℕ → Option ℤ → Bool
ahead_if_set now skew none = false
ahead_if_set now skew (some at) = is_ahead now skew at

abbrev pub principal_of : Claims → Principal
principal_of claims = record {
  subject = claims.subject;
  user_id = claims.user_id;
  email = claims.email;
  name = claims.name;
  image = claims.image;
  roles = claims.roles;
  audiences = claims.audience;
}

abbrev pub captures : Bytes → Option Bytes → Bool
captures id none = false
captures id (some captured) = bytes_eq captured id

abbrev pub check_identity : Claims → Result Code Principal
check_identity claims =
    if not (captures claims.user_id (subject_id claims.subject)) || is_empty claims.email
    then fail invalid_token
    else ok (principal_of claims)

abbrev pub check_times : Config → ℕ → Claims → ℤ → ℤ → Result Code Principal
check_times c now claims expires issued =
    if is_past now c.clock_skew expires
    then fail token_expired
    else if ahead_if_set now c.clock_skew claims.not_before
    then fail token_not_yet_valid
    else if is_ahead now c.clock_skew issued
    then fail token_issued_in_future
    else check_identity claims

abbrev pub with_times : Config → ℕ → Claims → Option ℤ → Option ℤ → Result Code Principal
with_times c now claims (some expires) (some issued) = check_times c now claims expires issued
with_times c now claims _ _ = fail invalid_token

unfoldable pub validate_claims : Config → ℕ → Claims → Result Code Principal
unfolding contains bytes_eq is_past is_ahead subject_id
validate_claims c now claims =
    if not (bytes_eq claims.issuer c.issuer)
    then fail wrong_issuer
    else if not (contains claims.audience c.resource)
    then fail wrong_audience
    else if not (bytes_eq claims.mode (codes "access"))
        || not (bytes_eq claims.claim_type (codes "user"))
    then fail invalid_token
    else with_times c now claims claims.expires_at claims.issued_at
