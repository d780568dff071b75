-- ===== src/S3/Sign/Tests.antt =====
-- Concrete URLs and signatures of s3/s3.go, and the theorems at concrete inputs.
use packages_go.Slashes.Clean.{IsNormal}
use packages_go.Prelude.{
  ◌≡◌, refl, inl, Bool, true, false, [], ◌∷◌, some, codes, arith, bytes_eq, pos, decimal_ℤ, decimal,
  digits_onto, has_prefix,
}
use mathlib.Core.List.{Permᴰ}
use packages_go.Sorting.{before, insert, sort}
use packages_go.Slashes.{split_slash, join_slash, clean, clean_pieces, reversed}
use packages_go.S3.Config.{Config, Url}
use packages_go.S3.Key.{valid_bucket}
use packages_go.S3.Wire.{text}
use packages_go.S3.Url.{
  object_url, path_join, escape_path_segments, rfc3986_escape, query_escape, replace_plus,
  upper_hex,
}
use packages_go.S3.Url.Decoded.{unescape}
use packages_go.S3.Url.Addressed.{path_for, host_for, object_url-addresses}
use packages_go.S3.Sign.{
  Parameter, Unsigned, canonical_query_string, query_parts, join_with, canonical_request,
  signed_headers, canonical_headers, header_names, trim_space, trim_start, trim_end, sign,
  signed_request, list_query,
}
use packages_go.S3.Sign.Ordered.{with_query, sign-with_query}

test_endpoint : Url
test_endpoint = record {
  has_user = false;
  raw_query = [];
  fragment = [];
  scheme = codes "https";
  host = codes "r2.example";
  hostname = codes "r2.example";
  path = [];
}

test_config : Bool → Config
test_config path_style = record {
  endpoint = codes "https://r2.example";
  region = codes "auto";
  bucket = codes "my-bucket";
  path_style = path_style;
  access_key_id = codes "id";
  secret_access_key = codes "key";
  session_token = [];
}

url_test :
    ((object_url test_endpoint (test_config true) (codes "a b/c:+d")).raw_path
      ≡ codes "/my-bucket/a%20b/c%3A%2Bd")
    × ((object_url test_endpoint (test_config false) (codes "a")).host
        ≡ codes "my-bucket.r2.example")
    × ((object_url test_endpoint (test_config true) (codes "a//b/")).path ≡ codes "/my-bucket/a/b")
unfolding object_url path_join clean clean_pieces reversed split_slash join_slash
    escape_path_segments rfc3986_escape query_escape replace_plus upper_hex test_config
    test_endpoint bytes_eq
url_test = (refl, refl, refl)

test_request : Unsigned
test_request =
    (signed_request (λ s. codes "hash") (λ k s. k) test_endpoint (test_config true) (codes "GET")
      (codes "a") (list_query (codes "p/") (codes "k") (pos 9)) (codes "sha") (codes "text/plain")
      (codes "T") (codes "D")).0

request_test :
    canonical_request (test_config true) test_request (codes "T")
    ≡ codes
        "GET\n/my-bucket/a\nlist-type=2&max-keys=9&prefix=p%2F&start-after=k\ncontent-type:text/plain\nhost:r2.example\nx-amz-content-sha256:sha\nx-amz-date:T\n\ncontent-type;host;x-amz-content-sha256;x-amz-date\nsha"
unfolding test_request signed_request list_query decimal_ℤ decimal digits_onto object_url path_join
    clean clean_pieces reversed split_slash join_slash escape_path_segments rfc3986_escape
    query_escape replace_plus upper_hex test_config test_endpoint bytes_eq canonical_request
    canonical_query_string query_parts join_with signed_headers canonical_headers header_names
    trim_space trim_start trim_end sort insert before
request_test = refl

below_one : IsNormal (codes "a b")
unfolding bytes_eq
below_one = record { filled = refl; not_dot = refl; not_dots = refl }

below_two : IsNormal (codes "c")
unfolding bytes_eq
below_two = record { filled = refl; not_dot = refl; not_dots = refl }

object_url-addresses_example :
    (unescape (object_url test_endpoint (test_config true) (codes "a b/c")).raw_path
      ≡ some (path_for (test_config true) (codes "a b/c")))
    × ((object_url test_endpoint (test_config true) (codes "a b/c")).host
        ≡ host_for test_endpoint (test_config true))
unfolding test_endpoint test_config valid_bucket has_prefix text split_slash bytes_eq
object_url-addresses_example =
    object_url-addresses test_endpoint (test_config true) (codes "a b/c") (inl refl) refl
      (below_one, (below_two, tt)) (omega arith)

one : Parameter
one = record { key = codes "uploadId"; values = codes "x" ∷ [] }

two : Parameter
two = record { key = codes "partNumber"; values = codes "1" ∷ [] }

part_request : Unsigned
part_request = with_query test_request (one ∷ two ∷ [])

sign-with_query_example :
    sign
      (λ s. s)
      (λ k s. s)
      (test_config true)
      (with_query part_request (two ∷ one ∷ []))
      (codes "T")
      (codes "D")
    ≡ sign (λ s. s) (λ k s. s) (test_config true) part_request (codes "T") (codes "D")
unfolding part_request one two
sign-with_query_example =
    sign-with_query (λ s. s) (λ k s. s) (test_config true) part_request (two ∷ one ∷ []) (codes "T")
      (codes "D") ((cc, tt), (tt, tt)) (Permᴰ.swap refl refl)
