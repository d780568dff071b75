-- ===== src/Github/Client.antt =====
-- github/client.go and the Token of github/types.go. Times are nanoseconds since Go's zero time.
-- A mint has three critical sections on the client's mutex (reserve, record_rate_limit, settle) and
-- one HTTP exchange between them, whose outcome is an argument.
pub mod Maps
pub mod Fresh
pub mod Mint
pub mod Scope
pub mod Schedule
pub mod Dedupe
pub mod Cache
pub mod Tests
use packages_go.Prelude.{
  ℕ, ◌+◌, ◌-◌, ◌*◌, ◌^◌, Bool, true, false, not, ◌&&◌, List, [], ◌∷◌, ◌++◌, Option, none, some,
  Bytes, codes, bytes_eq, is_blank, is_empty, contains_byte, ltb, leb, ◌==◌, ltb_ℤ, leb_ℤ, eqb_ℤ,
  if◌then◌else◌, ℤ, pos, negsuc, pos_part, decimal_ℤ,
}
use packages_go.Errors.{GoError, Result, ok, err, fail, errorf}
use packages_go.Github.Codes.{
  Code, invalid_config, invalid_permissions, call_budget_exhausted, duplicate_read, rate_limited,
}
use packages_go.Github.Permissions.{Permissions, key}

-- time.Second, time.Minute
abbrev pub second : ℕ
second = 10 ^ 9

abbrev pub minute : ℕ
minute = 60 * second

abbrev pub default_call_budget : ℕ
default_call_budget = 500

abbrev pub default_dedupe_window : ℕ
default_dedupe_window = 5 * minute

abbrev pub default_rate_limit_floor : ℕ
default_rate_limit_floor = 50

abbrev pub default_base_url : Bytes
default_base_url = codes "https://api.github.com"

pub record Token : Type 0 where
  pub value : Bytes
  pub repo : Bytes
  pub permissions : Permissions
  pub installation : ℤ
  pub minted_at : ℕ
  pub expires_at : ℕ

-- !now.Before(t.ExpiresAt.Add(-skew))
unfoldable pub expired : Token → ℕ → ℕ → Bool
expired t now skew = not (ltb now (t.expires_at - skew))

-- The fields of Config that are not interfaces; durations and counts may be negative.
pub record Config : Type 0 where
  pub app_id : ℤ
  pub private_key_pem : Bytes
  pub base_url : Bytes
  pub call_budget : ℤ
  pub dedupe_window : ℤ
  pub rate_limit_floor : ℤ

-- The settings that New fixes, and the fields behind the mutex.
pub record Client : Type 0 where
  pub app_id : ℤ
  pub base_url : Bytes
  pub call_budget : ℕ
  pub dedupe_window : ℕ
  pub rate_limit_floor : ℕ
  pub calls_made : ℕ
  pub rate_remaining : ℤ
  pub rate_known : Bool
  pub dedupe : List (Bytes × ℕ)
  pub tokens : List (Bytes × Token)

-- A count that is not positive stands for its default.
abbrev positive_or : ℕ → ℤ → ℕ
positive_or default n = if leb_ℤ n (pos 0) then default else pos_part n

abbrev window_of : ℤ → ℕ
window_of n = if eqb_ℤ n (pos 0) then default_dedupe_window else pos_part n

-- strings.TrimSuffix(url, "/")
unfoldable pub trim_slash : Bytes → Bytes
trim_slash [] = []
trim_slash (c ∷ []) = if c == b'/' then [] else c ∷ []
trim_slash (c ∷ d ∷ s) = c ∷ trim_slash (d ∷ s)

-- `parsed` is the outcome of parsePrivateKey.
unfoldable pub new : Config → Option (GoError Code) → Result Code Client
unfolding trim_slash
new config parsed =
    if leb_ℤ config.app_id (pos 0)
    then fail invalid_config
    else if is_empty config.private_key_pem
    then fail invalid_config
    else elim parsed [
      | some e ↦ err e
      | none ↦ ok (record {
        app_id = config.app_id;
        base_url =
            trim_slash (if is_empty config.base_url then default_base_url else config.base_url);
        call_budget = positive_or default_call_budget config.call_budget;
        dedupe_window = window_of config.dedupe_window;
        rate_limit_floor = positive_or default_rate_limit_floor config.rate_limit_floor;
        calls_made = 0;
        rate_remaining = pos 0;
        rate_known = false;
        dedupe = [];
        tokens = [];
      })
    ]

-- Go's maps with string keys.
module _ {ℓ} {V : Type ℓ} where
  unfoldable pub lookup : Bytes → List (Bytes × V) → Option V
  lookup k [] = none
  lookup k ((j, v) ∷ m) = if bytes_eq j k then some v else lookup k m

  -- delete(m, k)
  unfoldable pub delete : Bytes → List (Bytes × V) → List (Bytes × V)
  delete k [] = []
  delete k ((j, v) ∷ m) = if bytes_eq j k then delete k m else (j, v) ∷ delete k m

  -- m[k] = v
  unfoldable pub store : Bytes → V → List (Bytes × V) → List (Bytes × V)
  unfolding delete
  store k v m = (k, v) ∷ delete k m

-- One call of mint: the cache label is a repository's name or "owner:" and an owner.
pub record Request : Type 0 where
  pub installation : ℤ
  pub label : Bytes
  pub repos : List Bytes
  pub permissions : Permissions

unfoldable pub cache_key : ℤ → Bytes → Permissions → Bytes
cache_key installation label permissions =
    decimal_ℤ installation ++ (b'|' ∷ (label ++ (b'|' ∷ key permissions)))

abbrev pub request_key : Request → Bytes
request_key r = cache_key r.installation r.label r.permissions

-- The readings of c.now() in one pass of the first critical section.
pub record Readings : Type 0 where
  pub for_cache : ℕ
  pub for_dedupe : ℕ
  pub for_arming : ℕ

-- What the first critical section decides.
pub data Decision : Type 0 where
  cached : Token → Decision
  refused : Code → Decision
  reserved : ℕ → Decision

unfoldable pub cached_token : Client → Bytes → ℕ → Option Token
unfolding lookup
cached_token c k now = elim (lookup k c.tokens) [
  | none ↦ none
  | some t ↦ if expired t now minute then none else some t
]

-- The guard of the dedupe window: now.Sub(last) < window, for a window that is on.
unfoldable pub in_window : Client → Bytes → ℕ → Bool
unfolding lookup
in_window c k now = elim (lookup k c.dedupe) [
  | none ↦ false
  | some last ↦ ltb 0 c.dedupe_window && ltb now (last + c.dedupe_window)
]

-- The first critical section of mint.
unfoldable pub reserve : Bytes → Readings → Client → Decision × Client
unfolding cached_token in_window
reserve k now c = elim (cached_token c k now.for_cache) [
  | some t ↦ (cached t, c)
  | none ↦
      if in_window c k now.for_dedupe
      then (refused duplicate_read, c)
      else if leb c.call_budget c.calls_made
      then (refused call_budget_exhausted, c)
      else if c.rate_known && ltb_ℤ c.rate_remaining (pos c.rate_limit_floor)
      then (refused rate_limited, c)
      else (
        reserved now.for_arming,
        record c { dedupe = store k now.for_arming c.dedupe; calls_made = c.calls_made + 1 },
      )
]

-- The last critical section: a failure takes back only the guard that this call armed.
unfoldable pub settle : Bytes → ℕ → Result Code Token → Client → Client
unfolding lookup delete
settle k armed_at (ok t) c = record c { tokens = store k t c.tokens }
settle k armed_at (err e) c = elim (lookup k c.dedupe) [
  | none ↦ c
  | some current ↦ if current == armed_at then record c { dedupe = delete k c.dedupe } else c
]
