-- ===== src/S3/Sign.antt =====
-- sign, canonicalQueryString and hmacSHA's uses of s3/s3.go: AWS SigV4.
pub mod Ordered
pub mod Tests
use Prim.Native.String.{String}
use packages_go.Prelude.{
  ℕ, Bool, true, false, not, ◌||◌, ◌&&◌, List, [], ◌∷◌, ◌++◌, map, Bytes, codes, ltb, leb, ◌==◌,
  if◌then◌else◌, is_empty, contains_byte, ℤ, decimal_ℤ,
}
use packages_go.Sorting.{sort}
use packages_go.Encoding.Hex.{hex_encode}
use packages_go.S3.Config.{Config, Url}
use packages_go.S3.Url.{Target, rfc3986_escape, object_url}

-- One key of url.Values with its values, in the order in which a range over the map happens to go.
pub record Parameter : Type 0 where
  pub key : Bytes
  pub values : List Bytes

-- strings.Join
unfoldable pub join_with : ℕ → List Bytes → Bytes
join_with separator [] = []
join_with separator (p ∷ []) = p
join_with separator (p ∷ q ∷ ps) = p ++ (separator ∷ join_with separator (q ∷ ps))

abbrev pub pairs_of : Bytes → List Bytes → List Bytes
pairs_of key [] = []
pairs_of key (v ∷ vs) = (rfc3986_escape key ++ (b'=' ∷ rfc3986_escape v)) ∷ pairs_of key vs

unfoldable pub query_parts : List Parameter → List Bytes
unfolding rfc3986_escape
query_parts [] = []
query_parts (p ∷ ps) = pairs_of p.key p.values ++ query_parts ps

unfoldable pub canonical_query_string : List Parameter → Bytes
unfolding sort query_parts join_with
canonical_query_string values = join_with b'&' (query_parts (sort (λ p. p.key) values))

-- What sign reads of a request: the URL, the query, and the headers that it may sign ("" when not set).
pub record Unsigned : Type 0 where
  pub method : Bytes
  pub target : Target
  pub query : List Parameter
  pub content_type : Bytes
  pub range : Bytes
  pub payload_sha : Bytes

pub record Header : Type 0 where
  pub name : Bytes
  pub value : Bytes

abbrev is_space : ℕ → Bool
is_space c = (c == 32) || (leb 9 c && leb c 13)

unfoldable pub trim_start : Bytes → Bytes
trim_start [] = []
trim_start (c ∷ s) = let rest = trim_start s in if is_space c then rest else c ∷ s

unfoldable pub trim_end : Bytes → Bytes
trim_end [] = []
trim_end (c ∷ s) = let rest = trim_end s in if is_empty rest && is_space c then [] else c ∷ rest

-- strings.TrimSpace, of an ASCII header value
unfoldable pub trim_space : Bytes → Bytes
unfolding trim_start trim_end
trim_space s = trim_end (trim_start s)

abbrev named : String → Bytes → Header
named name value = record { name = codes name; value = value }

abbrev when_set : String → Bytes → List Header → List Header
when_set name value rest = if is_empty value then rest else named name value ∷ rest

-- The headers that are signed, in the order of their names.
unfoldable pub signed_headers : Config → Unsigned → Bytes → List Header
unfolding sort
signed_headers c r amz_date =
    sort (λ h. h.name)
      (named "host" r.target.host
        ∷ named "x-amz-content-sha256" r.payload_sha
        ∷ named "x-amz-date" amz_date
        ∷ when_set "x-amz-security-token" c.session_token
            (when_set "range" r.range (when_set "content-type" r.content_type [])))

unfoldable pub canonical_headers : List Header → Bytes
unfolding trim_space
canonical_headers [] = []
canonical_headers (h ∷ hs) =
    h.name ++ (b':' ∷ (trim_space h.value ++ (b'\n' ∷ canonical_headers hs)))

unfoldable pub header_names : List Header → Bytes
unfolding join_with
header_names hs = join_with b';' (map (λ (h : Header). h.name) hs)

unfoldable pub canonical_request : Config → Unsigned → Bytes → Bytes
unfolding canonical_query_string signed_headers canonical_headers header_names join_with
canonical_request c r amz_date =
    let headers = signed_headers c r amz_date in
    join_with b'\n' (
      r.method
      ∷ r.target.raw_path
      ∷ canonical_query_string r.query
      ∷ canonical_headers headers
      ∷ header_names headers
      ∷ r.payload_sha
      ∷ [])

unfoldable pub scope_of : Config → Bytes → Bytes
scope_of c date = date ++ (b'/' ∷ (c.region ++ codes "/s3/aws4_request"))

-- hash: mustHashHex; hmac: HMAC-SHA256 of a key and a text.
module _ (hash : Bytes → Bytes) (hmac : Bytes → Bytes → Bytes) where
  unfoldable pub string_to_sign : Config → Unsigned → Bytes → Bytes → Bytes
  unfolding canonical_request scope_of join_with
  string_to_sign c r amz_date date = join_with b'\n' (
      codes "AWS4-HMAC-SHA256"
      ∷ amz_date
      ∷ scope_of c date
      ∷ hash (canonical_request c r amz_date)
      ∷ [])

  unfoldable pub signing_key : Config → Bytes → Bytes
  signing_key c date =
      hmac (hmac (hmac (hmac (codes "AWS4" ++ c.secret_access_key) date) c.region) (codes "s3"))
        (codes "aws4_request")

  -- The Authorization header, for a time in its two forms.
  unfoldable pub sign : Config → Unsigned → Bytes → Bytes → Bytes
  unfolding string_to_sign signing_key hex_encode
  sign c r amz_date date =
      let signature = hex_encode (hmac (signing_key c date) (string_to_sign c r amz_date date)) in
      codes "AWS4-HMAC-SHA256 Credential="
      ++ (c.access_key_id
          ++ (b'/'
              ∷ (scope_of c date
                  ++ (codes ", SignedHeaders="
                      ++ (header_names (signed_headers c r amz_date)
                          ++ (codes ", Signature=" ++ signature))))))

  -- signedRequestWithContentType: the request, and its Authorization header.
  unfoldable pub signed_request :
      Url
      → Config
      → Bytes
      → Bytes
      → List Parameter
      → Bytes
      → Bytes
      → Bytes
      → Bytes
      → Unsigned × Bytes
  unfolding object_url sign
  signed_request endpoint c method key query payload_sha content_type amz_date date =
      let r : Unsigned = record {
        method = method;
        target = object_url endpoint c key;
        query = query;
        content_type = content_type;
        range = [];
        payload_sha = payload_sha;
      } in
      (r, sign c r amz_date date)

-- The query of List.
unfoldable pub list_query : Bytes → Bytes → ℤ → List Parameter
unfolding decimal_ℤ
list_query prefix start_after max_keys =
    let named_one : String → Bytes → Parameter =
      λ key value. record { key = codes key; values = value ∷ [] } in
    named_one "list-type" (codes "2")
    ∷ named_one "prefix" prefix
    ∷ named_one "max-keys" (decimal_ℤ max_keys)
    ∷ (if is_empty start_after then [] else named_one "start-after" start_after ∷ [])
