-- ===== src/Auth/Routes/Tests.antt =====
-- Concrete paths and redirects of auth/, and the theorem on them.
use packages_go.Prelude.{
  ◌≡◌, refl, true, false, [], ◌∷◌, Option, some, Bytes, codes, bytes_eq, has_prefix, contains, drop,
  if◌then◌else◌,
}
use packages_go.Auth.Routes.{
  Url, to_lower, valid_absolute_path, safe_redirect, folder_of, gated_by, before_fragment,
  gated_redirect_target,
}
use packages_go.Auth.Routes.Local.{IsLocal, safe_redirect-IsLocal}

-- Of a URL only the host is read off here: after two slashes, up to the end.
abbrev test_parse : Bytes → Option Url
test_parse path = some (record {
  scheme = [];
  host = if has_prefix path (codes "//") then drop 2 path else [];
  raw_query = [];
  fragment = [];
})

safe_redirect_test :
    (safe_redirect test_parse (codes "/a/b?c=d") ≡ codes "/a/b?c=d")
    × (safe_redirect test_parse (codes "//evil.example") ≡ codes "/")
    × (safe_redirect test_parse (codes "/\\evil.example") ≡ codes "/")
    × (safe_redirect test_parse (codes "/%2Fevil.example") ≡ codes "/")
    × (safe_redirect test_parse [] ≡ codes "/")
unfolding safe_redirect valid_absolute_path contains to_lower has_prefix
safe_redirect_test = (refl, refl, refl, refl, refl)

gated_test :
    (gated_by (codes "/admin/*" ∷ codes "/me" ∷ []) (codes "/admin/users") ≡ true)
    × (gated_by (codes "/admin/*" ∷ codes "/me" ∷ []) (codes "/admin") ≡ false)
    × (gated_by (codes "/admin/*" ∷ codes "/me" ∷ []) (codes "/me") ≡ true)
    × (gated_by (codes "/admin/*" ∷ codes "/me" ∷ []) (codes "/me/x") ≡ false)
    × (gated_redirect_target test_parse (codes "/me?a=b#c") (codes "/me") ≡ codes "/me?a=b")
unfolding gated_by gated_redirect_target before_fragment valid_absolute_path contains to_lower
    has_prefix bytes_eq folder_of
gated_test = (refl, refl, refl, refl, refl)

safe_redirect-IsLocal_example : IsLocal (safe_redirect test_parse (codes "/a/b"))
safe_redirect-IsLocal_example = safe_redirect-IsLocal test_parse (codes "/a/b")
