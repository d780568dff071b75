-- ===== src/Auth/Routes/Local.antt =====
-- That safeRedirect of auth/cookies.go stays on the site.
use packages_go.Prelude.{
  ◌≡◌, ◌≢◌, refl, Bool, true, false, not, ◌||◌, ◌&&◌, [], ◌∷◌, Option, Bytes, codes, contains,
  has_prefix, Bool-cases, and_split, neither, inl, inr, arith,
}
use packages_go.Auth.Routes.{Url, no_host, to_lower, valid_absolute_path, safe_redirect}

-- Neither a second slash nor a backslash, which browsers read as one, follows the first slash.
abbrev pub IsLocal : Bytes → Type 0
IsLocal [] = ⊥
IsLocal (c ∷ []) = c ≡ b'/'
IsLocal (c ∷ d ∷ s) = (c ≡ b'/') × (d ≢ b'/') × (d ≢ b'\\')

negated : (b : Bool) → not b ≡ true → b ≡ false
negated true h = cc
negated false h = refl

no_second_slash :
    (path : Bytes)
    → contains path (codes "\\") ≡ false
    → has_prefix path (codes "/") ≡ true
    → has_prefix path (codes "//") ≡ false
    → IsLocal path
unfolding contains has_prefix
no_second_slash [] clean one two = cc
no_second_slash (c ∷ []) clean one two = ground arith
no_second_slash (c ∷ d ∷ s) clean one two = (ground arith, ground arith, ground arith)

valid_absolute_path-IsLocal :
    (parse : Bytes → Option Url) (path : Bytes)
    → valid_absolute_path parse path ≡ true
    → IsLocal path
unfolding valid_absolute_path
valid_absolute_path-IsLocal parse path h =
    let lower = to_lower path in
    let escaped = contains lower (codes "%2f") || contains lower (codes "%5c") in
    elim (Bool-cases (contains path (codes "\\") || escaped)) [
      | inl e ↦ absurd (cc (h, e))
      | inr e ↦
          let (clean, other) = neither (contains path (codes "\\")) escaped e in
          let kept : (has_prefix path (codes "/")
                && (not (has_prefix path (codes "//")) && no_host parse (parse path)))
              ≡ true =
            rw e at h in
          let (one, rest) =
            and_split (has_prefix path (codes "/"))
              (not (has_prefix path (codes "//")) && no_host parse (parse path)) kept in
          let (two, alone) =
            and_split (not (has_prefix path (codes "//"))) (no_host parse (parse path)) rest in
          no_second_slash path clean one (negated (has_prefix path (codes "//")) two)
    ]

-- Whatever was asked for, safeRedirect gives a path of this site: a slash that neither a second slash
-- nor a backslash follows.
pub safe_redirect-IsLocal :
    (parse : Bytes → Option Url) (path : Bytes) → IsLocal (safe_redirect parse path)
unfolding safe_redirect
safe_redirect-IsLocal parse path = elim (Bool-cases (valid_absolute_path parse path)) [
  | inl e ↦ rw e (valid_absolute_path-IsLocal parse path e)
  | inr e ↦ rw e refl
]
