-- ===== src/S3/Url.antt =====
-- objectURL, escapePathSegments and rfc3986Escape of s3/s3.go.
pub mod Decoded
pub mod Addressed
use packages_go.Prelude.{
  ℕ, ◌+◌, ◌/◌, ◌%◌, Bool, true, false, ◌||◌, ◌&&◌, List, [], ◌∷◌, ◌++◌, map, Bytes, codes, ltb, leb,
  ◌==◌, if◌then◌else◌, is_empty,
}
use packages_go.Slashes.{split_slash, join_slash, clean}
use packages_go.S3.Config.{Config, Url}

abbrev pub is_unreserved : ℕ → Bool
is_unreserved c =
    (leb b'A' c && leb c b'Z')
    || ((leb b'a' c && leb c b'z')
        || ((leb b'0' c && leb c b'9')
            || ((c == b'-') || ((c == b'_') || ((c == b'.') || (c == b'~'))))))

-- One of the digits 0-9 and A-F.
unfoldable pub upper_hex : ℕ → ℕ
upper_hex n = if ltb n 10 then b'0' + n else 55 + n

-- url.QueryEscape
unfoldable pub query_escape : Bytes → Bytes
unfolding upper_hex
query_escape [] = []
query_escape (c ∷ s) =
    let rest = query_escape s in
    if is_unreserved c
    then c ∷ rest
    else if c == b' '
    then b'+' ∷ rest
    else b'%' ∷ upper_hex (c / 16) ∷ upper_hex (c % 16) ∷ rest

-- strings.ReplaceAll(s, "+", "%20")
unfoldable pub replace_plus : Bytes → Bytes
replace_plus [] = []
replace_plus (c ∷ s) =
    let rest = replace_plus s in if c == b'+' then b'%' ∷ b'2' ∷ b'0' ∷ rest else c ∷ rest

unfoldable pub rfc3986_escape : Bytes → Bytes
unfolding query_escape replace_plus
rfc3986_escape value = replace_plus (query_escape value)

unfoldable pub escape_path_segments : Bytes → Bytes
unfolding split_slash join_slash rfc3986_escape
escape_path_segments p = join_slash (map rfc3986_escape (split_slash p))

abbrev pub without_empty : List Bytes → List Bytes
without_empty [] = []
without_empty (p ∷ ps) = let rest = without_empty ps in if is_empty p then rest else p ∷ rest

-- path.Join, of elements that are not all empty
unfoldable pub path_join : List Bytes → Bytes
unfolding join_slash clean
path_join elements = clean (join_slash (without_empty elements))

-- Where a request goes: the host, and the path with the form of it that is sent and signed.
pub record Target : Type 0 where
  pub host : Bytes
  pub path : Bytes
  pub raw_path : Bytes

abbrev target : Bytes → Bytes → Target
target host path = record { host = host; path = path; raw_path = escape_path_segments path }

-- The endpoint is the parsed URL of the configuration, which NewClient has checked.
unfoldable pub object_url : Url → Config → Bytes → Target
unfolding escape_path_segments path_join
object_url endpoint c key =
    if c.path_style
    then target endpoint.host (path_join ((b'/' ∷ []) ∷ endpoint.path ∷ c.bucket ∷ key ∷ []))
    else target (c.bucket ++ (b'.' ∷ endpoint.host)) (b'/' ∷ key)
