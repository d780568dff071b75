-- ===== src/Github/Client/Cache.antt =====
-- The token cache of github/client.go: a token is served until a minute before it expires.
use packages_go.Prelude.{
  ℕ, ◌≡◌, refl, ◌∙◌, ap, false, ◌++◌, some, Bytes, codes, bytes_eq_refl, is_blank, is_empty, arith,
  ℤ, pos, leb_ℤ,
}
use packages_go.Errors.{ok}
use packages_go.Github.Permissions.{Permissions}
use packages_go.Github.Client.{
  Client, Token, Request, Readings, Decision, cached, refused, reserved, store, request_key,
  expired, minute, cached_token, reserve, settle,
}
use packages_go.Github.Client.Maps.{lookup-store}
use packages_go.Github.Client.Fresh.{Exchange, mint_fresh}
use packages_go.Github.Client.Mint.{
  after_reserve, mint, repo_request, owner_request, mint_installation_token,
  mint_installation_token_for_owner,
}

cached-store :
    (k : Bytes) (t : Token) (now : ℕ) (c : Client)
    → expired t now minute ≡ false
    → cached_token (record c { tokens = store k t c.tokens }) k now ≡ some t
unfolding cached_token
cached-store k t now c h = ground (arith, lookup-store k k t c.tokens, bytes_eq_refl k)

after_reserve-cached :
    (r : Request) (x : Exchange) (d : Decision × Client) (t : Token) (now : ℕ)
    → (d.0 ≡ cached t → cached_token d.1 (request_key r) now ≡ some t)
    → expired t now minute ≡ false
    → (after_reserve r x d).0 ≡ ok t
    → cached_token (after_reserve r x d).1 (request_key r) now ≡ some t
unfolding after_reserve
after_reserve-cached r x (cached u, c) t now h valid e = let same : u ≡ t = cc in h (ap cached same)
after_reserve-cached r x (refused code, c) t now h valid e = cc
after_reserve-cached r x (reserved at, c) t now h valid e =
    let outcome : (mint_fresh r x c).0 ≡ ok t = e in
    rw outcome (unfold settle in cached-store (request_key r) t now (mint_fresh r x c).1 valid)

reserve_served :
    (k : Bytes) (now later : Readings) (c : Client) (u : Token)
    → expired u later.for_cache minute ≡ false
    → (reserve k now c).0 ≡ cached u
    → cached_token (reserve k now c).1 k later.for_cache ≡ some u
unfolding reserve
reserve_served k now later c u valid e = ground arith

-- The same request in the two ways to name a cache entry.
record SameEntry (r s : Request) : Type 0 where
  same_key : request_key s ≡ request_key r
  same_installation : s.installation ≡ r.installation
  same_permissions : s.permissions ≡ r.permissions

reserve_hit :
    (k : Bytes) (now : Readings) (c : Client) (t : Token)
    → cached_token c k now.for_cache ≡ some t
    → reserve k now c ≡ (cached t, c)
unfolding reserve
reserve_hit k now c t e = rw (e, reserve)

mint_checked :
    (r : Request) (now : Readings) (x : Exchange) (c : Client)
    → leb_ℤ r.installation (pos 0) ≡ false
    → is_empty r.permissions ≡ false
    → mint r now x c ≡ after_reserve r x (reserve (request_key r) now c)
unfolding mint
mint_checked r now x c positive some_permission = rw (positive, some_permission)

mint-checks :
    (r : Request) (now : Readings) (x : Exchange) (c : Client) (t : Token)
    → (mint r now x c).0 ≡ ok t
    → (leb_ℤ r.installation (pos 0) ≡ false) × (is_empty r.permissions ≡ false)
unfolding mint
mint-checks r now x c t e = ground arith

mint_hit :
    (s : Request) (later : Readings) (y : Exchange) (d : Client) (t : Token)
    → (leb_ℤ s.installation (pos 0) ≡ false) × (is_empty s.permissions ≡ false)
    → cached_token d (request_key s) later.for_cache ≡ some t
    → mint s later y d ≡ (ok t, d)
unfolding after_reserve
mint_hit s later y d t (positive, some_permission) hit =
    mint_checked s later y d positive some_permission
    ∙ ap (after_reserve s y) (reserve_hit (request_key s) later d t hit)

mint_entry :
    (r s : Request) (now later : Readings) (x y : Exchange) (c : Client) (t : Token)
    → SameEntry r s
    → expired t later.for_cache minute ≡ false
    → (mint r now x c).0 ≡ ok t
    → mint s later y (mint r now x c).1 ≡ (ok t, (mint r now x c).1)
mint_entry r s now later x y c t same valid e =
    let (positive, some_permission) = mint-checks r now x c t e in
    let run = mint_checked r now x c positive some_permission in
    let held =
      after_reserve-cached r x (reserve (request_key r) now c) t later.for_cache
        (reserve_served (request_key r) now later c t valid) valid (rw run at e) in
    mint_hit s later y (mint r now x c).1 t
      (rw same.same_installation positive, rw same.same_permissions some_permission)
      (rw (run, same.same_key) held)

-- A token that mint returned is served again, with no call to GitHub and no change of the client,
-- until a minute before it expires.
pub mint-mint :
    (r : Request) (now later : Readings) (x y : Exchange) (c : Client) (t : Token)
    → (mint r now x c).0 ≡ ok t
    → expired t later.for_cache minute ≡ false
    → mint r later y (mint r now x c).1 ≡ (ok t, (mint r now x c).1)
mint-mint r now later x y c t e valid =
    mint_entry r r now later x y c t
      (record { same_key = refl; same_installation = refl; same_permissions = refl }) valid e

-- The two kinds of label share one name space: after a mint for an owner, a mint for the repository
-- called "owner:" and that owner's name returns the token of the whole installation.
pub mint_installation_token-owner :
    (i : ℤ) (owner : Bytes) (p : Permissions) (now later : Readings) (x y : Exchange) (c : Client)
    (t : Token)
    → is_blank owner ≡ false
    → (mint_installation_token_for_owner i owner p now x c).0 ≡ ok t
    → expired t later.for_cache minute ≡ false
    → mint_installation_token i
        (codes "owner:" ++ owner)
        p
        later
        y
        (mint_installation_token_for_owner i owner p now x c).1
      ≡ (ok t, (mint_installation_token_for_owner i owner p now x c).1)
unfolding mint_installation_token mint_installation_token_for_owner is_blank
mint_installation_token-owner i owner p now later x y c t named e valid =
    let made : (mint (owner_request i owner p) now x c).0 ≡ ok t = rw named at e in
    rw named (
      mint_entry (owner_request i owner p) (repo_request i (codes "owner:" ++ owner) p) now later x
        y c t (record { same_key = refl; same_installation = refl; same_permissions = refl }) valid
        made)
