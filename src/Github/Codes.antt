-- ===== src/Github/Codes.antt =====
-- github/errors.go: the codes and their classes.
use packages_go.Prelude.{ℕ, Bool, true, ◌≡◌, ◌↔◌, ◌==◌, arith}

pub data Code : Type 0 where
  invalid_config invalid_private_key unknown_installation invalid_permissions : Code
  transport_unavailable rate_limited call_budget_exhausted duplicate_read : Code
  unexpected_response : Code

pub data Class : Type 0 where
  configuration transport : Class

pub class : Code → Class
class invalid_config = configuration
class invalid_private_key = configuration
class unknown_installation = configuration
class invalid_permissions = configuration
class _ = transport

tag : Code → ℕ
tag invalid_config = 0
tag invalid_private_key = 1
tag unknown_installation = 2
tag invalid_permissions = 3
tag transport_unavailable = 4
tag rate_limited = 5
tag call_budget_exhausted = 6
tag duplicate_read = 7
tag unexpected_response = 8

-- left == right on codes
unfoldable pub same_code : Code → Code → Bool
unfolding tag
same_code a b = tag a == tag b

pub same_code_iff : (a b : Code) → (same_code a b ≡ true) ↔ (a ≡ b)
unfolding same_code
same_code_iff a b = ground arith
