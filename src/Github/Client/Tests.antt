-- ===== src/Github/Client/Tests.antt =====
-- Runs of the client on concrete inputs, and the theorems at inputs that meet their hypotheses.
use mathlib.Core.List.Perm
use packages_go.Prelude.{
  ℕ, ◌≤◌, ◌≡◌, ◌≢◌, refl, true, false, [], ◌∷◌, some, none, Bytes, codes, bytes_eq_iff, is_blank,
  arith, pos, negsuc, decimal_ℤ, parse_int, ◌*◌,
}
use packages_go.Errors.{ok, fail, errorf}
use packages_go.Github.Codes.{duplicate_read, transport_unavailable}
use packages_go.Github.Permissions.{Permissions, key, value}
use packages_go.Github.Permissions.Order.{key-perm}
use packages_go.Github.Client.{
  Client, Config, Token, Request, Readings, refused, reserved, lookup, store, request_key, expired,
  minute, reserve, settle, new, trim_slash, cache_key, default_base_url,
}
use packages_go.Github.Client.Fresh.{Exchange, unreachable, answered, fields, mint_fresh}
use packages_go.Github.Client.Mint.{
  mint, repo_request, owner_request, mint_installation_token, mint_installation_token_for_owner,
}
use packages_go.Github.Client.Schedule.{
  World, Flight, here, next, reserves, sends, posts-le-call_budget,
}
use packages_go.Github.Client.Dedupe.{mint-not_duplicate, settle-other_guard}
use packages_go.Github.Client.Cache.{mint-mint, mint_installation_token-owner}

abbrev config : Config
config = record {
  app_id = pos 7;
  private_key_pem = codes "pem";
  base_url = [];
  call_budget = pos 0;
  dedupe_window = pos 0;
  rate_limit_floor = negsuc 0;
}

abbrev client : Client
client = record {
  app_id = pos 7;
  base_url = default_base_url;
  call_budget = 500;
  dedupe_window = 5 * minute;
  rate_limit_floor = 50;
  calls_made = 0;
  rate_remaining = pos 0;
  rate_known = false;
  dedupe = [];
  tokens = [];
}

new_test : new config none ≡ ok client
unfolding new trim_slash
new_test = refl

abbrev read_contents : Permissions
read_contents = (codes "contents", codes "read") ∷ []

abbrev request : Request
request = repo_request (pos 3) (codes "acme/site") read_contents

abbrev at_time : ℕ → Readings
at_time t = record { for_cache = t; for_dedupe = t; for_arming = t }

abbrev granted : Exchange
granted = record {
  jwt = none;
  request_built = true;
  answer = answered 201 (codes "4999") (fields (codes "ghs") (some (60 * minute)));
  minted_at = 10;
}

abbrev offline : Exchange
offline = record { jwt = none; request_built = true; answer = unreachable; minted_at = 10 }

abbrev token : Request → Token
token r = record {
  value = codes "ghs";
  repo = r.label;
  permissions = r.permissions;
  installation = r.installation;
  minted_at = 10;
  expires_at = 60 * minute;
}

mint_test : (mint request (at_time 10) granted client).0 ≡ ok (token request)
unfolding mint reserve settle mint_fresh cache_key key lookup store decimal_ℤ parse_int
mint_test = refl

fail_test : (mint request (at_time 10) offline client).0 ≡ fail transport_unavailable
unfolding mint reserve settle mint_fresh cache_key key lookup store decimal_ℤ parse_int
fail_test = refl

reserve_test : (reserve (request_key request) (at_time 10) client).0 ≡ reserved 10
unfolding reserve cache_key key lookup
reserve_test = refl

mint-mint_example :
    mint request (at_time minute) offline (mint request (at_time 10) granted client).1
    ≡ (ok (token request), (mint request (at_time 10) granted client).1)
mint-mint_example =
    mint-mint request (at_time 10) (at_time minute) granted offline client (token request) mint_test
      (unfold expired in refl)

mint-not_duplicate_example :
    (reserve (request_key request) (at_time 11) (mint request (at_time 10) offline client).1).0
    ≢ refused duplicate_read
mint-not_duplicate_example =
    mint-not_duplicate request (at_time 10) (at_time 11) offline client 10
      (errorf transport_unavailable) refl refl reserve_test fail_test

settle-other_guard_example :
    lookup
      (request_key request)
      (settle
        (request_key request)
        3
        (fail transport_unavailable)
        (reserve (request_key request) (at_time 10) client).1).dedupe
    ≡ some 10
settle-other_guard_example =
    settle-other_guard (request_key request) 3 10 (at_time 10) (errorf transport_unavailable) client
      reserve_test (omega arith)

abbrev flight : Flight
flight = record { request = request; armed_at = 10 }

abbrev after_one_post : World
after_one_post = record {
  client = (reserve (request_key request) (at_time 10) client).1;
  waiting = [];
  posted = flight ∷ [];
  posts = 1;
}

posts-le-call_budget_example : 1 ≤ client.call_budget
posts-le-call_budget_example =
    posts-le-call_budget config client after_one_post new_test
      (next (next here (reserves request (at_time 10) 10 reserve_test)) (sends [] [] flight refl))

abbrev two : Permissions
two = (codes "issues", codes "write") ∷ (codes "checks", codes "read") ∷ []

abbrev two_again : Permissions
two_again = (codes "checks", codes "read") ∷ (codes "issues", codes "write") ∷ []

value_two : (k : Bytes) → value k two ≡ value k two_again
unfolding value
value_two k = ground (arith, bytes_eq_iff (codes "issues") k, bytes_eq_iff (codes "checks") k)

key-perm_example : key two ≡ key two_again
key-perm_example = key-perm two two_again (Perm.swap _ _ []) value_two

abbrev owner_token : Token
owner_token = token (owner_request (pos 3) (codes "acme") read_contents)

owner_test :
    (mint_installation_token_for_owner
      (pos 3)
      (codes "acme")
      read_contents
      (at_time 10)
      granted
      client).0
    ≡ ok owner_token
unfolding mint_installation_token_for_owner mint reserve settle mint_fresh cache_key key lookup
    store decimal_ℤ parse_int is_blank
owner_test = refl

mint_installation_token-owner_example :
    mint_installation_token
      (pos 3)
      (codes "owner:acme")
      read_contents
      (at_time minute)
      offline
      (mint_installation_token_for_owner
        (pos 3)
        (codes "acme")
        read_contents
        (at_time 10)
        granted
        client).1
    ≡ (
      ok owner_token,
      (mint_installation_token_for_owner
          (pos 3)
          (codes "acme")
          read_contents
          (at_time 10)
          granted
          client).1,
    )
unfolding is_blank
mint_installation_token-owner_example =
    mint_installation_token-owner (pos 3) (codes "acme") read_contents (at_time 10) (at_time minute)
      granted offline client owner_token refl owner_test (unfold expired in refl)
