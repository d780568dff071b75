-- ===== src/Auth/Codes.antt =====
-- The codes of auth/errors.go; Error, Unwrap, IsCode and errorf are packages_go.Errors.
pub data Code : Type 0 where
  invalid_config invalid_provider invalid_state missing_pkce invalid_token invalid_signature : Code
  wrong_issuer wrong_audience token_expired token_not_yet_valid token_issued_in_future : Code
  jwks_unavailable issuer_unavailable invalid_response secret_unavailable : Code
