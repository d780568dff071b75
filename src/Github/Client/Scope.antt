-- ===== src/Github/Client/Scope.antt =====
-- A token that mint returns, cached or fresh, has the scope that was asked for.
use packages_go.Prelude.{◌≡◌, ◌≢◌, some, Bytes, All, bytes_eq_iff, arith, ℕ}
use packages_go.Errors.{Result, ok, err}
use packages_go.Github.Codes.{Code}
use packages_go.Github.Permissions.{Permissions, key}
use packages_go.Github.Client.{
  Client, Token, Request, Readings, Decision, cached, refused, reserved, lookup, cache_key,
  request_key, reserve, settle,
}
use packages_go.Github.Client.Maps.{lookup-store}
use packages_go.Github.Client.Fresh.{Exchange, mint_fresh, record_rate_limit}
use packages_go.Github.Client.Mint.{after_reserve, mint}

abbrev pub token_key : Token → Bytes
token_key t = cache_key t.installation t.repo t.permissions

-- Every cached token stands under the key of its own scope.
pub record IsKeyed (c : Client) : Type 0 where
  pub at_key : (k : Bytes) (t : Token) → lookup k c.tokens ≡ some t → k ≡ token_key t

-- What a decoded token says of its scope.
abbrev Scoped : Request → Result Code Token → Type 0
Scoped r (ok t) = request_key r ≡ token_key t
Scoped r (err e) = Unit

mint_fresh-Scoped : (r : Request) (x : Exchange) (c : Client) → Scoped r (mint_fresh r x c).0
unfolding mint_fresh
mint_fresh-Scoped r x c = ground arith

tokens-record_rate_limit : (s : Bytes) (c : Client) → (record_rate_limit s c).tokens ≡ c.tokens
unfolding record_rate_limit
tokens-record_rate_limit s c = ground arith

tokens-mint_fresh :
    (r : Request) (x : Exchange) (c : Client) → (mint_fresh r x c).1.tokens ≡ c.tokens
unfolding mint_fresh
tokens-mint_fresh r x c = ground arith

tokens-reserve : (k : Bytes) (now : Readings) (c : Client) → (reserve k now c).1.tokens ≡ c.tokens
unfolding reserve
tokens-reserve k now c = ground arith

settle-IsKeyed :
    (r : Request) (armed_at : ℕ) (outcome : Result Code Token) (c : Client)
    → Scoped r outcome
    → IsKeyed c
    → IsKeyed (settle (request_key r) armed_at outcome c)
unfolding settle
settle-IsKeyed r armed_at (ok t) c s h = record {
  at_key = λ k u e. ground (
    arith,
    lookup-store (request_key r) k t c.tokens,
    bytes_eq_iff (request_key r) k,
    h.at_key k u,
  );
}
settle-IsKeyed r armed_at (err x) c s h = record { at_key = λ k u e. ground (arith, h.at_key k u) }

IsKeyed-tokens : {c d : Client} → d.tokens ≡ c.tokens → IsKeyed c → IsKeyed d
IsKeyed-tokens e h = record { at_key = λ k t f. h.at_key k t (rw (← e) f) }

after_reserve-IsKeyed :
    (r : Request) (x : Exchange) (d : Decision × Client)
    → IsKeyed d.1
    → IsKeyed (after_reserve r x d).1
unfolding after_reserve
after_reserve-IsKeyed r x (cached t, c) h = h
after_reserve-IsKeyed r x (refused code, c) h = h
after_reserve-IsKeyed r x (reserved armed_at, c) h =
    settle-IsKeyed r armed_at (mint_fresh r x c).0 (mint_fresh r x c).1 (mint_fresh-Scoped r x c)
      (IsKeyed-tokens (tokens-mint_fresh r x c) h)

-- A mint keeps every cached token under the key of its own scope.
pub mint-IsKeyed :
    (r : Request) (now : Readings) (x : Exchange) (c : Client)
    → IsKeyed c
    → IsKeyed (mint r now x c).1
unfolding mint
mint-IsKeyed r now x c h =
    let kept =
      after_reserve-IsKeyed r x (reserve (request_key r) now c)
        (IsKeyed-tokens (tokens-reserve (request_key r) now c) h) in
    ground arith

abbrev pub NoPipe : Bytes → Type 0
NoPipe s = All (λ c. c ≢ b'|') s

-- The scope of a token is the scope that the request names.
pub record HasScope (r : Request) (t : Token) : Type 0 where
  pub same_installation : r.installation ≡ t.installation
  pub same_label : r.label ≡ t.repo
  pub same_permissions : key r.permissions ≡ key t.permissions
