-- ===== src/Github/Client/Fresh.antt =====
-- mintFresh and recordRateLimit of github/client.go. The signed JWT, the request that the library
-- builds and the answer of the network are arguments.
use packages_go.Prelude.{
  ℕ, Bool, ◌||◌, [], ◌∷◌, Option, none, some, Bytes, is_empty, ◌==◌, if◌then◌else◌, parse_int, true,
}
use packages_go.Errors.{GoError, Result, ok, err, fail}
use packages_go.Github.Codes.{
  Code, unknown_installation, rate_limited, unexpected_response, transport_unavailable,
}
use packages_go.Github.Client.{Client, Token, Request}

-- What is read of the body of a 201 answer: the token, and its expiry when that is RFC 3339.
pub data Body : Type 0 where
  unreadable malformed : Body
  fields : Bytes → Option ℕ → Body

pub data Answer : Type 0 where
  unreachable : Answer
  -- status, X-RateLimit-Remaining ("" when absent), body
  answered : ℕ → Bytes → Body → Answer

-- One run of mintFresh against the outside.
pub record Exchange : Type 0 where
  pub jwt : Option (GoError Code)
  pub request_built : Bool
  pub answer : Answer
  pub minted_at : ℕ

unfoldable pub record_rate_limit : Bytes → Client → Client
record_rate_limit [] c = c
record_rate_limit (d ∷ remaining) c = elim (parse_int (d ∷ remaining)) [
  | none ↦ c
  | some n ↦ record c { rate_remaining = n; rate_known = true }
]

unfoldable pub decode_token : Request → ℕ → Body → Result Code Token
decode_token r now unreadable = fail transport_unavailable
decode_token r now malformed = fail unexpected_response
decode_token r now (fields value none) = fail unexpected_response
decode_token r now (fields value (some expires)) =
    if is_empty value
    then fail unexpected_response
    else ok (record {
      value = value;
      repo = r.label;
      permissions = r.permissions;
      installation = r.installation;
      minted_at = now;
      expires_at = expires;
    })

unfoldable pub read_status : Request → ℕ → ℕ → Body → Result Code Token
unfolding decode_token
read_status r now status body =
    if status == 201
    then decode_token r now body
    else if status == 404 || status == 422
    then fail unknown_installation
    else if status == 403 || status == 429
    then fail rate_limited
    else fail unexpected_response

unfoldable pub read_answer : Request → ℕ → Answer → Client → Result Code Token × Client
unfolding read_status record_rate_limit
read_answer r now unreachable c = (fail transport_unavailable, c)
read_answer r now (answered status remaining body) c =
    (read_status r now status body, record_rate_limit remaining c)

unfoldable pub mint_fresh : Request → Exchange → Client → Result Code Token × Client
unfolding read_answer
mint_fresh r x c = elim x.jwt [
  | some e ↦ (err e, c)
  | none ↦
      if x.request_built
      then read_answer r x.minted_at x.answer c
      else (fail transport_unavailable, c)
]
