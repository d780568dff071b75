-- ===== src/S3/Sign/Ordered.antt =====
-- The signature of s3/s3.go and the order of a map.
use packages_go.Prelude.{◌≡◌, List, Bytes, refl}
use mathlib.Core.List.{Permᴰ}
use packages_go.Sorting.Order.{HasDistinct, sort-Perm}
use packages_go.S3.Config.{Config}
use packages_go.S3.Sign.{
  Parameter, Unsigned, canonical_query_string, canonical_request, string_to_sign, sign,
}

-- The same map, ranged over in another order.
abbrev pub with_query : Unsigned → List Parameter → Unsigned
with_query r query = record {
  method = r.method;
  target = r.target;
  query = query;
  content_type = r.content_type;
  range = r.range;
  payload_sha = r.payload_sha;
}

-- The Authorization header does not depend on the order in which the map of query parameters is
-- ranged over, no two of which have the same key.
pub sign-with_query :
    (hash : Bytes → Bytes) (hmac : Bytes → Bytes → Bytes) (c : Config) (r : Unsigned)
    (query : List Parameter) (amz_date date : Bytes)
    → HasDistinct (λ p. p.key) r.query
    → Permᴰ r.query query
    → sign hash hmac c (with_query r query) amz_date date ≡ sign hash hmac c r amz_date date
unfolding sign string_to_sign canonical_request canonical_query_string
sign-with_query hash hmac c r query amz_date date distinct same =
    rw (sort-Perm (λ p. p.key) same distinct) refl
