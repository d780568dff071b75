-- ===== src/Auth/Claims/Valid.antt =====
-- What the claims that validateClaims of auth/verify.go accepts say.
use mathlib.Core.Path.{subst}
use packages_go.Prelude.{
  ℕ, ◌+◌, ◌*◌, ◌≤◌, ◌≡◌, refl, ap, ◌∙◌, Bool, true, false, not, ◌||◌, ◌&&◌, inl, inr, [], ◌∷◌, ◌++◌,
  Option, none, some, Bytes, codes, bytes_eq, bytes_eq_iff, is_empty, ◌==◌, ==_iff, ℤ, pos_part,
  neg_part, length, drop, has_prefix, and_split, neither, arith, Bool-cases,
}
use packages_go.Errors.{ok, unguarded}
use packages_go.Auth.Codes.{
  invalid_token, wrong_issuer, wrong_audience, token_expired, token_not_yet_valid,
  token_issued_in_future,
}
use packages_go.Auth.Subject.{subject_id, is_ulid, is_uuid}
use packages_go.Auth.Claims.{
  Config, Claims, Principal, contains, unix_second, nanoseconds, is_past, is_ahead, ahead_if_set,
  principal_of, captures, check_times, with_times, validate_claims,
}

-- The moment of a claim is not more than the skew before `now`, and not more than the skew after it.
abbrev pub NotPast : ℕ → ℕ → ℤ → Type 0
NotPast now skew at =
    now + neg_part (unix_second at) * nanoseconds ≤ pos_part (unix_second at) * nanoseconds + skew

abbrev pub NotAhead : ℕ → ℕ → ℤ → Type 0
NotAhead now skew at =
    pos_part (unix_second at) * nanoseconds ≤ now + skew + neg_part (unix_second at) * nanoseconds

abbrev pub NotAheadIfSet : ℕ → ℕ → Option ℤ → Type 0
NotAheadIfSet now skew none = Unit
NotAheadIfSet now skew (some at) = NotAhead now skew at

pub record IsValid (c : Config) (now : ℕ) (claims : Claims) : Type 0 where
  pub issuer : claims.issuer ≡ c.issuer
  pub audience : contains claims.audience c.resource ≡ true
  pub mode : claims.mode ≡ codes "access"
  pub claim_type : claims.claim_type ≡ codes "user"
  pub expires : ℤ
  pub issued : ℤ
  pub expires_at : claims.expires_at ≡ some expires
  pub issued_at : claims.issued_at ≡ some issued
  pub not_expired : NotPast now c.clock_skew expires
  pub active : NotAheadIfSet now c.clock_skew claims.not_before
  pub not_future : NotAhead now c.clock_skew issued
  pub subject : claims.subject ≡ codes "user:" ++ claims.user_id
  pub identity : (is_ulid claims.user_id || is_uuid claims.user_id) ≡ true
  pub email : is_empty claims.email ≡ false

pub negated : (b : Bool) → not b ≡ false → b ≡ true
negated true h = refl
negated false h = cc

has_prefix-drop : (s p : Bytes) → has_prefix s p ≡ true → s ≡ p ++ drop (length p) s
unfolding has_prefix
has_prefix-drop s [] h = refl
has_prefix-drop [] (c ∷ p) h = cc
has_prefix-drop (d ∷ s) (c ∷ p) h =
    let (first, rest) = and_split (d == c) (has_prefix s p) h in
    let same : d ≡ c = (==_iff d c).0 first in let later = has_prefix-drop s p rest in cc

subject_id-some :
    (subject id : Bytes)
    → subject_id subject ≡ some id
    → (subject ≡ codes "user:" ++ id) × ((is_ulid id || is_uuid id) ≡ true)
unfolding subject_id
subject_id-some subject id h =
    let rest = drop 5 subject in
    elim (Bool-cases (has_prefix subject (codes "user:") && (is_ulid rest || is_uuid rest))) [
      | inr e ↦ absurd (cc (h, e))
      | inl e ↦
          let (start, form) =
            and_split (has_prefix subject (codes "user:")) (is_ulid rest || is_uuid rest) e in
          let made : some rest ≡ some id = rw e at h in
          let same : rest ≡ id = cc in
          (
            has_prefix-drop subject (codes "user:") start
                ∙ ap (λ (t : Bytes). codes "user:" ++ t) same,
            subst (λ t. (is_ulid t || is_uuid t) ≡ true) same form,
          )
    ]

captures-some : (id : Bytes) (o : Option Bytes) → captures id o ≡ true → o ≡ some id
captures-some id none h = cc
captures-some id (some captured) h = ap some ((bytes_eq_iff captured id).0 h)

is_past-NotPast : (now skew : ℕ) (at : ℤ) → is_past now skew at ≡ false → NotPast now skew at
unfolding is_past
is_past-NotPast now skew at h = ground arith

is_ahead-NotAhead : (now skew : ℕ) (at : ℤ) → is_ahead now skew at ≡ false → NotAhead now skew at
unfolding is_ahead
is_ahead-NotAhead now skew at h = ground arith

ahead_if_set-NotAhead :
    (now skew : ℕ) (at : Option ℤ) → ahead_if_set now skew at ≡ false → NotAheadIfSet now skew at
ahead_if_set-NotAhead now skew none h = tt
ahead_if_set-NotAhead now skew (some at) h = is_ahead-NotAhead now skew at h

with_times-ok :
    (c : Config) (now : ℕ) (claims : Claims) (e i : Option ℤ) (p : Principal)
    → with_times c now claims e i ≡ ok p
    → (expires : ℤ) × (issued : ℤ) × (e ≡ some expires)
      × (i ≡ some issued)
      × (check_times c now claims expires issued ≡ ok p)
with_times-ok c now claims (some e) (some i) p h = (e, i, refl, refl, h)
with_times-ok c now claims none i p h = cc
with_times-ok c now claims (some e) none p h = cc

-- Accepted claims are valid, and the principal is theirs.
pub validate_claims-IsValid :
    (c : Config) (now : ℕ) (claims : Claims) (p : Principal)
    → validate_claims c now claims ≡ ok p
    → IsValid c now claims × (principal_of claims ≡ p)
unfolding validate_claims
validate_claims-IsValid c now claims p h =
    let (issuer, h1) = unguarded wrong_issuer (not (bytes_eq claims.issuer c.issuer)) _ p h in
    let (audience, h2) =
      unguarded wrong_audience (not (contains claims.audience c.resource)) _ p h1 in
    let (kind, h3) =
      unguarded invalid_token
        (not (bytes_eq claims.mode (codes "access"))
          || not (bytes_eq claims.claim_type (codes "user")))
        _ p h2 in
    let (mode, claim_type) =
      neither (not (bytes_eq claims.mode (codes "access")))
        (not (bytes_eq claims.claim_type (codes "user"))) kind in
    let (expires, issued, has_expires, has_issued, h4) =
      with_times-ok c now claims claims.expires_at claims.issued_at p h3 in
    let (past, h5) = unguarded token_expired (is_past now c.clock_skew expires) _ p h4 in
    let (ahead, h6) =
      unguarded token_not_yet_valid (ahead_if_set now c.clock_skew claims.not_before) _ p h5 in
    let (future, h7) = unguarded token_issued_in_future (is_ahead now c.clock_skew issued) _ p h6 in
    let (same_id, made) =
      unguarded invalid_token
        (not (captures claims.user_id (subject_id claims.subject)) || is_empty claims.email) _ p
        h7 in
    let (captured, email) =
      neither (not (captures claims.user_id (subject_id claims.subject))) (is_empty claims.email)
        same_id in
    let (subject, identity) = subject_id-some claims.subject claims.user_id (
      captures-some claims.user_id (subject_id claims.subject)
        (negated (captures claims.user_id (subject_id claims.subject)) captured)) in
    let valid : IsValid c now claims = record {
      issuer =
          (bytes_eq_iff claims.issuer c.issuer).0
            (negated (bytes_eq claims.issuer c.issuer) issuer);
      audience = negated (contains claims.audience c.resource) audience;
      mode =
          (bytes_eq_iff claims.mode (codes "access")).0
            (negated (bytes_eq claims.mode (codes "access")) mode);
      claim_type =
          (bytes_eq_iff claims.claim_type (codes "user")).0
            (negated (bytes_eq claims.claim_type (codes "user")) claim_type);
      expires = expires;
      issued = issued;
      expires_at = has_expires;
      issued_at = has_issued;
      not_expired = is_past-NotPast now c.clock_skew expires past;
      active = ahead_if_set-NotAhead now c.clock_skew claims.not_before ahead;
      not_future = is_ahead-NotAhead now c.clock_skew issued future;
      subject = subject;
      identity = identity;
      email = email;
    } in
    (valid, cc)
