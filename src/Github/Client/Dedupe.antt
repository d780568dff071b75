-- ===== src/Github/Client/Dedupe.antt =====
-- The dedupe guard of github/client.go, the settings that New fixes, and the labels of the two ways
-- to mint.
use packages_go.Prelude.{
  ℕ, ◌+◌, ◌<◌, ◌≡◌, ◌≢◌, true, false, none, some, Bytes, bytes_eq_refl, arith, pos, leb_ℤ, is_empty,
}
use packages_go.Errors.{err, GoError}
use packages_go.Github.Codes.{Code, duplicate_read}
use packages_go.Github.Client.{
  Client, Request, Readings, Decision, cached, refused, reserved, lookup, request_key, cached_token,
  in_window, reserve, settle,
}
use packages_go.Github.Client.Maps.{lookup-store, lookup-delete}
use packages_go.Github.Client.Fresh.{Exchange, mint_fresh}
use packages_go.Github.Client.Mint.{after_reserve, mint}

dedupe-mint_fresh :
    (r : Request) (x : Exchange) (c : Client) → (mint_fresh r x c).1.dedupe ≡ c.dedupe
unfolding mint_fresh
dedupe-mint_fresh r x c = ground arith

-- A reservation arms the guard of its key and leaves the window alone.
guard-reserve :
    (k : Bytes) (now : Readings) (c : Client) (armed_at : ℕ)
    → (reserve k now c).0 ≡ reserved armed_at
    → (lookup k (reserve k now c).1.dedupe ≡ some armed_at)
      × ((reserve k now c).1.dedupe_window ≡ c.dedupe_window)
unfolding reserve
guard-reserve k now c armed_at e =
    ground (arith, lookup-store k k now.for_arming c.dedupe, bytes_eq_refl k)

guard-settle :
    (k : Bytes) (armed_at : ℕ) (e : GoError Code) (c : Client)
    → lookup k c.dedupe ≡ some armed_at
    → lookup k (settle k armed_at (err e) c).dedupe ≡ none
unfolding settle
guard-settle k armed_at e c h = ground (arith, lookup-delete k k c.dedupe, bytes_eq_refl k)

refuse_in_window :
    (k : Bytes) (now : Readings) (c : Client) (last : ℕ)
    → lookup k c.dedupe ≡ some last
    → cached_token c k now.for_cache ≡ none
    → 0 < c.dedupe_window
    → now.for_dedupe < last + c.dedupe_window
    → reserve k now c ≡ (refused duplicate_read, c)
unfolding reserve
refuse_in_window k now c last guard fresh on inside =
    let closed : in_window c k now.for_dedupe ≡ true = ground arith in
    rw (fresh, reserve) (ground arith)

-- While the window of a reservation is open and no valid token is cached, an identical call is
-- refused as a duplicate and changes nothing.
reserve_twice :
    (k : Bytes) (first second : Readings) (c : Client) (armed_at : ℕ)
    → (reserve k first c).0 ≡ reserved armed_at
    → cached_token (reserve k first c).1 k second.for_cache ≡ none
    → 0 < c.dedupe_window
    → second.for_dedupe < armed_at + c.dedupe_window
    → reserve k second (reserve k first c).1 ≡ (refused duplicate_read, (reserve k first c).1)
reserve_twice k first second c armed_at e fresh on inside =
    let (guard, same) = guard-reserve k first c armed_at e in
    refuse_in_window k second (reserve k first c).1 armed_at guard fresh (omega (arith, same))
      (omega (arith, same))

not_duplicate :
    (k : Bytes) (now : Readings) (c : Client)
    → lookup k c.dedupe ≡ none
    → (reserve k now c).0 ≢ refused duplicate_read
unfolding reserve
not_duplicate k now c h = ground arith

after_reserve-guard :
    (r : Request) (x : Exchange) (d : Decision × Client) (armed_at : ℕ) (e : GoError Code)
    → d.0 ≡ reserved armed_at
    → lookup (request_key r) d.1.dedupe ≡ some armed_at
    → (after_reserve r x d).0 ≡ err e
    → lookup (request_key r) (after_reserve r x d).1.dedupe ≡ none
unfolding after_reserve
after_reserve-guard r x (reserved at, c) armed_at e same guard failed =
    let time : at ≡ armed_at = cc in
    let outcome : (mint_fresh r x c).0 ≡ err e = failed in
    rw (outcome, time)
      (guard-settle (request_key r) armed_at e (mint_fresh r x c).1
        (rw (dedupe-mint_fresh r x c) guard))
after_reserve-guard r x (cached t, c) armed_at e same guard failed = cc
after_reserve-guard r x (refused code, c) armed_at e same guard failed = cc

-- A mint that reserved and then failed leaves no guard behind: an immediate retry, whatever the clock
-- says, is not refused as a duplicate.
pub mint-not_duplicate :
    (r : Request) (now later : Readings) (x : Exchange) (c : Client) (armed_at : ℕ)
    (e : GoError Code)
    → leb_ℤ r.installation (pos 0) ≡ false
    → is_empty r.permissions ≡ false
    → (reserve (request_key r) now c).0 ≡ reserved armed_at
    → (mint r now x c).0 ≡ err e
    → (reserve (request_key r) later (mint r now x c).1).0 ≢ refused duplicate_read
unfolding mint
mint-not_duplicate r now later x c armed_at e positive some_permission d failed =
    not_duplicate (request_key r) later _ (
      rw (positive, some_permission)
        (after_reserve-guard r x (reserve (request_key r) now c) armed_at e d
          (guard-reserve (request_key r) now c armed_at d).0
          (rw (positive, some_permission) at failed)))

-- A failed call leaves the guard that another call armed on its key at another time.
pub settle-other_guard :
    (k : Bytes) (mine other : ℕ) (now : Readings) (e : GoError Code) (c : Client)
    → (reserve k now c).0 ≡ reserved other
    → mine ≢ other
    → lookup k (settle k mine (err e) (reserve k now c).1).dedupe ≡ some other
unfolding settle
settle-other_guard k mine other now e c d ne = ground (arith, (guard-reserve k now c other d).0)
