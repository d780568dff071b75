-- ===== src/Auth/Routes.antt =====
-- The paths and redirects of auth/: validAbsolutePath, validLocalRoute and validGatedPath of config.go,
-- safeRedirect of cookies.go, and isAuthRoute, isGated and gatedRedirectTarget of http.go.
pub mod Local
pub mod Tests
use packages_go.Prelude.{
  ℕ, ◌+◌, Bool, true, false, not, ◌||◌, ◌&&◌, List, [], ◌∷◌, Option, none, some, Bytes, codes,
  bytes_eq, is_empty, contains, has_prefix, leb, ◌==◌, if◌then◌else◌,
}

-- What is read of a URL.
pub record Url : Type 0 where
  pub scheme : Bytes
  pub host : Bytes
  pub raw_query : Bytes
  pub fragment : Bytes

-- The fields of Config that are read here.
pub record Routes : Type 0 where
  pub callback_path : Bytes
  pub login_path : Bytes
  pub logout_path : Bytes
  pub gated_paths : List Bytes

-- strings.ToLower on ASCII; no other letter has a lower case in the texts that are looked for.
unfoldable pub to_lower : Bytes → Bytes
to_lower [] = []
to_lower (c ∷ s) = (if leb b'A' c && leb c b'Z' then c + 32 else c) ∷ to_lower s

abbrev onto : ℕ → Option Bytes → Option Bytes
onto c none = none
onto c (some s) = some (c ∷ s)

-- The pattern less its final "*", if it ends in "/*".
unfoldable pub folder_of : Bytes → Option Bytes
unfolding bytes_eq
folder_of [] = none
folder_of (c ∷ s) =
    let later = folder_of s in if bytes_eq (c ∷ s) (codes "/*") then some (c ∷ []) else onto c later

-- `parse` is url.Parse, `none` for an error.
module _ (parse : Bytes → Option Url) where
  abbrev pub no_host : Option Url → Bool
  no_host none = false
  no_host (some url) = is_empty url.scheme && is_empty url.host

  unfoldable pub valid_absolute_path : Bytes → Bool
  unfolding contains to_lower has_prefix
  valid_absolute_path path =
      let lower = to_lower path in
      if contains path (codes "\\")
        || (contains lower (codes "%2f") || contains lower (codes "%5c"))
      then false
      else has_prefix path (codes "/")
        && (not (has_prefix path (codes "//")) && no_host (parse path))

  abbrev plain : Option Url → Bool
  plain none = false
  plain (some url) = is_empty url.raw_query && is_empty url.fragment

  unfoldable pub valid_local_route : Bytes → Bool
  unfolding valid_absolute_path
  valid_local_route path = plain (parse path) && valid_absolute_path path

  unfoldable pub safe_redirect : Bytes → Bytes
  unfolding valid_absolute_path
  safe_redirect path = if valid_absolute_path path then path else codes "/"

  abbrev valid_pattern : Bytes → Option Bytes → Bool
  valid_pattern path none = valid_local_route path
  valid_pattern path (some folder) = valid_local_route folder

  unfoldable pub valid_gated_path : Bytes → Bool
  unfolding folder_of valid_local_route
  valid_gated_path path = valid_pattern path (folder_of path)

unfoldable pub is_auth_route : Routes → Bytes → Bool
unfolding bytes_eq
is_auth_route c path =
    bytes_eq path c.callback_path || (bytes_eq path c.login_path || bytes_eq path c.logout_path)

abbrev pub gates : Bytes → Bytes → Option Bytes → Bool
gates path pattern none = bytes_eq path pattern
gates path pattern (some folder) = has_prefix path folder

-- The loop of isGated over the patterns.
unfoldable pub gated_by : List Bytes → Bytes → Bool
unfolding has_prefix bytes_eq folder_of
gated_by [] path = false
gated_by (pattern ∷ patterns) path =
    let rest = gated_by patterns path in
    if gates path pattern (folder_of pattern) then true else rest

abbrev pub is_gated : Routes → Bytes → Bool
is_gated c path = gated_by c.gated_paths path

unfoldable pub before_fragment : Bytes → Bytes
before_fragment [] = []
before_fragment (c ∷ s) = let rest = before_fragment s in if c == b'#' then [] else c ∷ rest

-- `request_uri` and `path` are RequestURI() and Path of the request's URL.
unfoldable pub gated_redirect_target : (Bytes → Option Url) → Bytes → Bytes → Bytes
unfolding before_fragment valid_absolute_path
gated_redirect_target parse request_uri path =
    let target = before_fragment request_uri in
    if not (valid_absolute_path parse target) then path else target
