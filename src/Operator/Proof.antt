-- ===== src/Operator/Proof.antt =====
-- The rest of foundryoperator/foundryoperator.go: nonces, principal kids, the proof and Sign. Times
-- are nanoseconds since Go's zero time.
pub mod Nonces
pub mod Reads
pub mod Signed
use Prim.Native.String.{String}
use packages_go.Prelude.{
  ℕ, ◌+◌, ◌-◌, ◌*◌, ◌^◌, ◌≡◌, Bool, true, false, not, ◌&&◌, ◌||◌, List, [], ◌∷◌, ◌++◌, Option, none,
  some, Bytes, codes, ltb, leb, ◌==◌, if◌then◌else◌, length, is_empty, contains_byte,
}
use packages_go.Encoding.Hex.{hex_encode}
use packages_go.Encoding.Base64.{encode, raw_url, std}
use packages_go.Operator.Canonical.{
  Value, string, object, Fields, no_fields, field, append_canonical,
}

abbrev pub protocol : Bytes
protocol = codes "FOUNDRY-OPERATOR-V1"

abbrev pub nonce_charset : Bytes
nonce_charset = codes "ABCDEFGHIJKLMNOPQRSTUVWXYZabcdefghijklmnopqrstuvwxyz0123456789_-"

-- time.Second
abbrev pub second : ℕ
second = 10 ^ 9

abbrev pub clock_skew_backdate : ℕ
clock_skew_backdate = second

abbrev pub validity_window : ℕ
validity_window = 60 * second

-- strings.TrimLeft(s, cutset) and strings.TrimRight(s, cutset), for an ASCII cutset
unfoldable pub trim_left : Bytes → Bytes → Bytes
trim_left cutset [] = []
trim_left cutset (c ∷ s) =
    let rest = trim_left cutset s in if contains_byte c cutset then rest else c ∷ s

unfoldable pub trim_right : Bytes → Bytes → Bytes
trim_right cutset [] = []
trim_right cutset (c ∷ s) =
    let rest = trim_right cutset s in
    if is_empty rest && contains_byte c cutset then [] else c ∷ rest

-- strings.Trim
abbrev pub trim : Bytes → Bytes → Bytes
trim cutset s = trim_right cutset (trim_left cutset s)

unfoldable pub valid_nonce : Bytes → Bool
unfolding trim_left trim_right
valid_nonce nonce =
    leb 22 (length nonce) && (leb (length nonce) 128 && is_empty (trim nonce_charset nonce))

-- rand.Read's 24 bytes, `none` for its error
unfoldable pub random_nonce : Option Bytes → Option Bytes
random_nonce none = none
random_nonce (some raw) = some (encode raw_url raw)

abbrev pub is_alphanumeric : ℕ → Bool
is_alphanumeric c =
    (leb b'A' c && leb c b'Z') || ((leb b'a' c && leb c b'z') || (leb b'0' c && leb c b'9'))

abbrev pub is_kid_char : ℕ → Bool
is_kid_char c = is_alphanumeric c || contains_byte c (codes "._:-")

unfoldable pub all_kid_chars : Bytes → Bool
all_kid_chars [] = true
all_kid_chars (c ∷ s) = is_kid_char c && all_kid_chars s

-- PrincipalKIDPattern.MatchString, for ^[A-Za-z0-9][A-Za-z0-9._:-]{0,127}$
unfoldable pub matches_kid : Bytes → Bool
unfolding all_kid_chars
matches_kid [] = false
matches_kid (c ∷ s) = is_alphanumeric c && (all_kid_chars s && leb (length s) 127)

pub record Proof : Type 0 where
  pub protocol : Bytes
  pub principal_kid : Bytes
  pub nonce : Bytes
  pub issued_at : Bytes
  pub expires_at : Bytes
  pub method : Bytes
  pub normalized_path : Bytes
  pub normalized_query : Bytes
  pub body_sha256 : Bytes

pub data SignError : Type 0 where
  kid_invalid key_invalid nonce_unavailable encode_failed : SignError

pub data Outcome (A : Type 0) : Type 0 where
  ok : A → Outcome A
  err : SignError → Outcome A

-- What this code takes from outside: SHA-256, Ed25519 under a private key, RFC3339Nano in UTC, and
-- the replacement of invalid UTF-8 by encoding/json.
pub record Primitives : Type 0 where
  pub sha256 : Bytes → Bytes
  pub ed25519_sign : Bytes → Bytes → Bytes
  pub format_time : ℕ → Bytes
  pub to_valid : Bytes → Bytes

-- ed25519.PrivateKeySize
abbrev pub private_key_size : ℕ
private_key_size = 64

-- `nonce` is none for a nil function, else what the function returns; `random` is what rand.Read
-- fills in.
unfoldable pub nonce_of : Option (Option Bytes) → Option Bytes → Option Bytes
unfolding random_nonce
nonce_of none random = random_nonce random
nonce_of (some given) random = given

module _ (prims : Primitives) where
  abbrev text_field : String → Bytes → Fields → Fields
  text_field name value rest = field (codes name) (string (prims.to_valid value)) rest

  -- An empty query is left out.
  abbrev query_field : Bytes → Fields → Fields
  query_field query rest = if is_empty query then rest else text_field "normalizedQuery" query rest

  -- What a proof is after json.Marshal and Decode: the tags of the struct name the fields.
  unfoldable pub proof_value : Proof → Value
  proof_value p = object (
      text_field "protocol" p.protocol (
        text_field "principalKid" p.principal_kid (
          text_field "nonce" p.nonce (
            text_field "issuedAt" p.issued_at (
              text_field "expiresAt" p.expires_at (
                text_field "method" p.method (
                  text_field "normalizedPath" p.normalized_path (
                    query_field p.normalized_query
                      (text_field "bodySha256" p.body_sha256 no_fields)))))))))

  unfoldable pub canonical_marshal : Proof → Option Bytes
  unfolding proof_value append_canonical
  canonical_marshal p = append_canonical (proof_value p)

  unfoldable pub proof_of : Bytes → Bytes → Bytes → Bytes → Bytes → Bytes → ℕ → Proof
  proof_of kid nonce method path query body now = record {
    protocol = protocol;
    principal_kid = kid;
    nonce = nonce;
    issued_at = prims.format_time (now - clock_skew_backdate);
    expires_at = prims.format_time (now + validity_window);
    method = method;
    normalized_path = path;
    normalized_query = query;
    body_sha256 = hex_encode (prims.sha256 body);
  }

  abbrev sealed : Bytes → Option Bytes → Outcome (Bytes × Bytes)
  sealed key none = err encode_failed
  sealed key (some proof) = ok (encode raw_url proof, encode std (prims.ed25519_sign key proof))

  abbrev with_nonce : Bytes → (Bytes → Proof) → Option Bytes → Outcome (Bytes × Bytes)
  with_nonce key proof none = err nonce_unavailable
  with_nonce key proof (some nonce) =
      if not (valid_nonce nonce)
      then err nonce_unavailable
      else sealed key (canonical_marshal (proof nonce))

  unfoldable pub sign :
      Bytes
      → Bytes
      → Bytes
      → Bytes
      → Bytes
      → Bytes
      → ℕ
      → Option (Option Bytes)
      → Option Bytes
      → Outcome (Bytes × Bytes)
  unfolding matches_kid canonical_marshal valid_nonce nonce_of proof_of
  sign key kid method path query body now nonce random =
      if not (matches_kid kid)
      then err kid_invalid
      else if not (length key == private_key_size)
      then err key_invalid
      else with_nonce key (λ n. proof_of kid n method path query body now) (nonce_of nonce random)
