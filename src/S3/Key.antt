-- ===== src/S3/Key.antt =====
-- validKey and validBucket of s3/s3.go.
use packages_go.Prelude.{
  ℕ, Bool, true, false, not, ◌||◌, ◌&&◌, List, [], ◌∷◌, Bytes, is_empty, has_prefix, contains,
  bytes_eq, length, ltb, leb, ◌==◌, if◌then◌else◌,
}
use packages_go.Slashes.{split_slash}
use packages_go.S3.Wire.{text}

unfoldable pub no_dots : List Bytes → Bool
no_dots [] = true
no_dots (part ∷ parts) =
    not (bytes_eq part (text ".") || bytes_eq part (text "..")) && no_dots parts

unfoldable pub valid_key : Bytes → Bool
unfolding split_slash no_dots
valid_key key =
    if is_empty key || (has_prefix key (text "/") || contains key (text ".."))
    then false
    else no_dots (split_slash key)

abbrev pub bucket_char : ℕ → Bool
bucket_char c =
    (leb b'a' c && leb c b'z') || ((leb b'0' c && leb c b'9') || ((c == b'-') || (c == b'.')))

-- strings.HasSuffix(s, "-")
abbrev pub ends_in_dash : Bytes → Bool
ends_in_dash [] = false
ends_in_dash (c ∷ []) = c == b'-'
ends_in_dash (c ∷ d ∷ s) = ends_in_dash (d ∷ s)

abbrev pub all_bucket_chars : Bytes → Bool
all_bucket_chars [] = true
all_bucket_chars (c ∷ s) = bucket_char c && all_bucket_chars s

unfoldable pub valid_bucket : Bytes → Bool
valid_bucket bucket =
    if ltb (length bucket) 3
      || (ltb 63 (length bucket) || (has_prefix bucket (text "-") || ends_in_dash bucket))
    then false
    else all_bucket_chars bucket
