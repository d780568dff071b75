-- ===== src/Projects/Codes.antt =====
-- fulcrumprojects/errors.go, and apiError of client.go. The Status of an Error is not modelled.
use packages_go.Prelude.{
  ℕ, Bool, ◌||◌, ◌&&◌, ◌==◌, leb, Bytes, codes, bytes_eq, is_empty, decimal, ◌++◌, if◌then◌else◌,
}
use packages_go.Errors.{GoError, coded, other}

pub data Code : Type 0 where
  invalid_config invalid_request unauthorized forbidden : Code
  epoch_mismatch conflict : Code
  transport_unavailable rate_limited unexpected_response : Code

pub data Class : Type 0 where
  configuration sync transport : Class

unfoldable pub class : Code → Class
class invalid_config = configuration
class invalid_request = configuration
class unauthorized = configuration
class forbidden = configuration
class epoch_mismatch = sync
class conflict = sync
class _ = transport

tag : Code → ℕ
tag invalid_config = 0
tag invalid_request = 1
tag unauthorized = 2
tag forbidden = 3
tag epoch_mismatch = 4
tag conflict = 5
tag transport_unavailable = 6
tag rate_limited = 7
tag unexpected_response = 8

-- == on codes
unfoldable pub same_code : Code → Code → Bool
unfolding tag
same_code a b = tag a == tag b

-- The token that stands for an answer without one.
abbrev token_of : ℕ → Bytes → Bytes
token_of status error = if is_empty error then codes "status_" ++ decimal status else error

unfoldable pub code_of : ℕ → Bytes → Code
code_of status token =
    if bytes_eq token (codes "sync_epoch_mismatch") || bytes_eq token (codes "resnapshot_required")
    then epoch_mismatch
    else if status == 409
    then conflict
    else if status == 400
    then invalid_request
    else if (status == 401) || ((status == 404) && bytes_eq token (codes "not_found"))
    then unauthorized
    else if status == 403
    then forbidden
    else if status == 429
    then rate_limited
    else if leb 500 status
    then transport_unavailable
    else unexpected_response

-- error_of: the "error" field of the payload, "" when there is none.
unfoldable pub api_error : (Bytes → Bytes) → ℕ → Bytes → GoError Code
api_error error_of status payload =
    coded (code_of status (token_of status (error_of payload))) other
