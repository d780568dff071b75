-- ===== src/S3/Url/Addressed.antt =====
-- Where the requests of s3/s3.go go.
use mathlib.Core.Path.{subst}
use packages_go.Prelude.{
  ℕ, ◌<◌, ◌≡◌, ◌≢◌, refl, sym, ◌∙◌, ap, true, false, ◌||◌, ◌⊎◌, inl, inr, [], ◌∷◌, ◌++◌, Bytes, ltb,
  if◌then◌else◌, some, Bool-cases, All, All-append, arith, length, bytes_eq, is_empty, has_prefix,
  neither, and_split,
}
use packages_go.Encoding.Base64.RoundTrip.{IsByte}
use packages_go.Slashes.{split_slash, join_slash}
use packages_go.Slashes.Pieces.{HasNoSlash, split_slash-append}
use packages_go.Slashes.Clean.{IsNormal, IsBelow, clean-two, clean-four}
use packages_go.S3.Config.{Config, Url}
use packages_go.S3.Key.{valid_bucket, all_bucket_chars, ends_in_dash, bucket_char}
use packages_go.S3.Wire.{text}
use packages_go.S3.Url.{object_url, path_join, escape_path_segments}
use packages_go.S3.Url.Decoded.{unescape, unescape-escape_path_segments}

abbrev IsBucketByte : ℕ → Type 0
IsBucketByte c = (c ≢ b'/') × (c < 256)

all_bucket_chars-All : (s : Bytes) → all_bucket_chars s ≡ true → All IsBucketByte s
all_bucket_chars-All [] h = tt
all_bucket_chars-All (c ∷ s) h =
    let (first, rest) = and_split (bucket_char c) (all_bucket_chars s) h in
    (ground arith, all_bucket_chars-All s rest)

long-IsNormal : (s : Bytes) → ltb (length s) 3 ≡ false → IsNormal s
unfolding bytes_eq
long-IsNormal [] h = cc
long-IsNormal (c ∷ []) h = cc
long-IsNormal (c ∷ d ∷ []) h = cc
long-IsNormal (c ∷ d ∷ e ∷ s) h = record {
  filled = refl;
  not_dot = ground arith;
  not_dots = ground arith;
}

-- A bucket's name is one piece of a path.
valid_bucket-IsNormal :
    (bucket : Bytes) → valid_bucket bucket ≡ true → IsNormal bucket × All IsBucketByte bucket
unfolding valid_bucket
valid_bucket-IsNormal bucket h =
    let rest = ltb 63 (length bucket) || (has_prefix bucket (text "-") || ends_in_dash bucket) in
    elim (Bool-cases (ltb (length bucket) 3 || rest)) [
      | inl e ↦ absurd (cc (h, e))
      | inr e ↦
          let (long, _) = neither (ltb (length bucket) 3) rest e in
          (long-IsNormal bucket long, all_bucket_chars-All bucket (rw e at h))
    ]

HasNoSlash-bucket : (s : Bytes) → All IsBucketByte s → HasNoSlash s
HasNoSlash-bucket [] h = tt
HasNoSlash-bucket (c ∷ s) ((n, _), k) = (n, HasNoSlash-bucket s k)

IsByte-bucket : (s : Bytes) → All IsBucketByte s → All IsByte s
IsByte-bucket [] h = tt
IsByte-bucket (c ∷ s) ((_, b), k) = (b, IsByte-bucket s k)

abbrev in_bucket : Bytes → Bytes → Bytes
in_bucket bucket key = bucket ++ (b'/' ∷ key)

in_bucket-IsBelow :
    (bucket key : Bytes)
    → IsNormal bucket
    → HasNoSlash bucket
    → IsBelow key
    → IsBelow (in_bucket bucket key)
in_bucket-IsBelow bucket key n h k =
    let pieces : All IsNormal (bucket ∷ split_slash key) = (n, k) in
    subst (All IsNormal) (sym (split_slash-append bucket key h)) pieces

IsBelow-filled : (key : Bytes) → IsBelow key → is_empty key ≡ false
unfolding split_slash
IsBelow-filled [] h = absurd (cc h.0.filled)
IsBelow-filled (c ∷ s) h = refl

-- What the requests ask for, below the host.
abbrev pub path_for : Config → Bytes → Bytes
path_for c key = if c.path_style then b'/' ∷ in_bucket c.bucket key else b'/' ∷ key

abbrev pub host_for : Url → Config → Bytes
host_for endpoint c = if c.path_style then endpoint.host else c.bucket ++ (b'.' ∷ endpoint.host)

path_join-in_bucket :
    (root bucket key : Bytes)
    → (root ≡ []) ⊎ (root ≡ b'/' ∷ [])
    → IsNormal bucket
    → HasNoSlash bucket
    → IsBelow key
    → path_join ((b'/' ∷ []) ∷ root ∷ bucket ∷ key ∷ []) ≡ b'/' ∷ in_bucket bucket key
unfolding path_join join_slash
path_join-in_bucket root bucket key (inl e) n h k =
    rw (e, IsBelow-filled key k, n.filled)
      (clean-two (in_bucket bucket key) (in_bucket-IsBelow bucket key n h k))
path_join-in_bucket root bucket key (inr e) n h k =
    rw (e, IsBelow-filled key k, n.filled)
      (clean-four (in_bucket bucket key) (in_bucket-IsBelow bucket key n h k))

object_url-path :
    (endpoint : Url) (c : Config) (key : Bytes)
    → (endpoint.path ≡ []) ⊎ (endpoint.path ≡ b'/' ∷ [])
    → valid_bucket c.bucket ≡ true
    → IsBelow key
    → ((object_url endpoint c key).raw_path ≡ escape_path_segments (path_for c key))
      × ((object_url endpoint c key).host ≡ host_for endpoint c)
unfolding object_url
object_url-path endpoint c key root valid below =
    let (n, bytes) = valid_bucket-IsNormal c.bucket valid in
    let joined =
      path_join-in_bucket endpoint.path c.bucket key root n (HasNoSlash-bucket c.bucket bytes)
        below in
    elim (Bool-cases c.path_style) [
      | inl e ↦ (rw e (ap escape_path_segments joined), rw e refl)
      | inr e ↦ (rw e refl, rw e refl)
    ]

path_for-IsByte :
    (c : Config) (key : Bytes)
    → valid_bucket c.bucket ≡ true
    → All IsByte key
    → All IsByte (path_for c key)
path_for-IsByte c key valid bytes =
    let (_, bucket) = valid_bucket-IsNormal c.bucket valid in
    let slashed : All IsByte (b'/' ∷ key) = (omega arith, bytes) in
    elim (Bool-cases c.path_style) [
      | inr e ↦ rw e slashed
      | inl e ↦
          let whole : All IsByte (b'/' ∷ in_bucket c.bucket key) = (
            omega arith,
            All-append IsByte c.bucket (b'/' ∷ key) (IsByte-bucket c.bucket bucket) slashed,
          ) in
          rw e whole
    ]

-- For a valid bucket, an endpoint without a path, and a key of bytes no piece of which is empty, "."
-- or "..": the escaped path of the URL is decoded to the key, below the bucket with path-style
-- addressing, where the host is the endpoint's; otherwise the host is the bucket's.
pub object_url-addresses :
    (endpoint : Url) (c : Config) (key : Bytes)
    → (endpoint.path ≡ []) ⊎ (endpoint.path ≡ b'/' ∷ [])
    → valid_bucket c.bucket ≡ true
    → IsBelow key
    → All IsByte key
    → (unescape (object_url endpoint c key).raw_path ≡ some (path_for c key))
      × ((object_url endpoint c key).host ≡ host_for endpoint c)
object_url-addresses endpoint c key root valid below bytes =
    let (path, host) = object_url-path endpoint c key root valid below in
    let decoded =
      unescape-escape_path_segments (path_for c key) (path_for-IsByte c key valid bytes) in
    (ap unescape path ∙ decoded, host)
