-- ===== src/Auth/Verify/Verified.antt =====
-- What the tokens that Verify of auth/verify.go accepts carry.
use packages_go.Prelude.{
  ℕ, ◌≡◌, refl, Bool, true, false, not, ◌||◌, List, [], ◌∷◌, ◌++◌, Option, none, some, Bytes, codes,
  bytes_eq, bytes_eq_iff, is_empty, ◌==◌, ==_iff, length, take, drop, and_split, neither, ap,
  if◌then◌else◌,
}
use packages_go.Encoding.Base64.{decode, raw_url}
use packages_go.Errors.{Result, ok, err, fail, unguarded}
use packages_go.Auth.Codes.{Code, invalid_token, invalid_signature}
use packages_go.Auth.Keys.{PublicKey, Fetched, Cache, signing_key, number_of}
use packages_go.Auth.Keys.Known.{IsKnown, signing_key-IsKnown}
use packages_go.Auth.Claims.{Config, Claims, Principal, principal_of, validate_claims}
use packages_go.Auth.Claims.Valid.{IsValid, negated, validate_claims-IsValid}
use packages_go.Auth.Verify.{
  Header, split_dot, Primitives, checked, verify_es256, with_claims, with_payload, with_key,
  with_header, with_header_bytes, with_parts, verify,
}

-- Bytes of a signature that ECDSA accepts.
pub record IsSigned (prims : Primitives) (key : PublicKey) (input encoded : Bytes) : Type 0 where
  pub signature : Bytes
  pub decoded : decode raw_url encoded ≡ some signature
  pub full : length signature ≡ 64
  pub accepted :
      prims.ecdsa_verify key
        (prims.sha256 input)
        (number_of (take 32 signature))
        (number_of (drop 32 signature))
      ≡ true

passed :
    {C : Type 0} {A S : Type 0} (code : C) (kept : S) (t : Bool) (rest : Result C A × S) (a : A)
    (left : S)
    → (if t then (fail code, kept) else rest) ≡ (ok a, left)
    → (t ≡ false) × (rest ≡ (ok a, left))
passed code kept true rest a left h = absurd (cc (ap (λ (r : Result _ _ × _). r.0) h))
passed code kept false rest a left h = (refl, h)

module _ (prims : Primitives) (c : Config) (asked_at now : ℕ) (fetched : Fetched)
    (cache : Cache) where
  pub record IsVerified (token : Bytes) (p : Principal) : Type 0 where
    pub first : Bytes
    pub middle : Bytes
    pub last : Bytes
    pub parts : split_dot token ≡ first ∷ middle ∷ last ∷ []
    pub header_bytes : Bytes
    pub header : Header
    pub header_decoded : decode raw_url first ≡ some header_bytes
    pub header_read : prims.header_of header_bytes ≡ some header
    pub algorithm : header.algorithm ≡ codes "ES256"
    pub key : PublicKey
    pub keyed :
        (signing_key prims.on_curve c.jwks_cache_ttl header.key_id asked_at fetched cache).0
        ≡ ok key
    pub known : IsKnown prims.on_curve header.key_id fetched cache key
    pub signed : IsSigned prims key (first ++ (b'.' ∷ middle)) last
    pub payload : Bytes
    pub claims : Claims
    pub payload_decoded : decode raw_url middle ≡ some payload
    pub payload_read : prims.claims_of payload ≡ some claims
    pub valid : IsValid c now claims
    pub made : principal_of claims ≡ p

  checked-IsSigned :
      (key : PublicKey) (input encoded : Bytes) (o : Option Bytes)
      → decode raw_url encoded ≡ o
      → checked prims key input o ≡ true
      → IsSigned prims key input encoded
  checked-IsSigned key input encoded none e h = cc
  checked-IsSigned key input encoded (some signature) e h =
      let (full, accepted) =
        and_split (length signature == 64)
          (prims.ecdsa_verify key (prims.sha256 input) (number_of (take 32 signature))
            (number_of (drop 32 signature)))
          h in
      record {
        signature = signature;
        decoded = e;
        full = (==_iff (length signature) 64).0 full;
        accepted = accepted;
      }

  verify_es256-IsSigned :
      (key : PublicKey) (input encoded : Bytes)
      → verify_es256 prims key input encoded ≡ true
      → IsSigned prims key input encoded
  unfolding verify_es256
  verify_es256-IsSigned key input encoded h =
      checked-IsSigned key input encoded (decode raw_url encoded) refl h

  with_claims-ok :
      (o : Option Claims) (p : Principal)
      → with_claims prims c now o ≡ ok p
      → (claims : Claims) × (o ≡ some claims) × (validate_claims c now claims ≡ ok p)
  with_claims-ok none p h = cc
  with_claims-ok (some claims) p h = (claims, refl, h)

  with_payload-ok :
      (o : Option Bytes) (p : Principal)
      → with_payload prims c now o ≡ ok p
      → (payload : Bytes) × (o ≡ some payload)
        × (with_claims prims c now (prims.claims_of payload) ≡ ok p)
  with_payload-ok none p h = cc
  with_payload-ok (some payload) p h = (payload, refl, h)

  with_key-ok :
      (first middle last : Bytes) (r : Result Code PublicKey) (p : Principal)
      → with_key prims c now first middle last r ≡ ok p
      → (key : PublicKey) × (r ≡ ok key)
        × (verify_es256 prims key (first ++ (b'.' ∷ middle)) last ≡ true)
        × (with_payload prims c now (decode raw_url middle) ≡ ok p)
  with_key-ok first middle last (err e) p h = cc
  with_key-ok first middle last (ok key) p h =
      let (signed, rest) =
        unguarded invalid_signature (not (verify_es256 prims key (first ++ (b'.' ∷ middle)) last)) _
          p h in
      (key, refl, negated _ signed, rest)

  -- Three parts whose first part has been decoded and read.
  with_header-IsVerified :
      (token first middle last header_bytes : Bytes) (o : Option Header) (p : Principal)
      (left : Cache)
      → split_dot token ≡ first ∷ middle ∷ last ∷ []
      → decode raw_url first ≡ some header_bytes
      → prims.header_of header_bytes ≡ o
      → with_header prims c asked_at now first middle last fetched cache o ≡ (ok p, left)
      → IsVerified token p
  with_header-IsVerified token first middle last header_bytes none p left parts decoded read h =
      absurd (cc h)
  with_header-IsVerified token first middle last header_bytes (some header) p left parts decoded
        read h =
      let (guard, h1) =
        passed invalid_token cache
          (not (bytes_eq header.algorithm (codes "ES256")) || is_empty header.key_id) _ p left h in
      let (algorithm, keyed) =
        neither (not (bytes_eq header.algorithm (codes "ES256"))) (is_empty header.key_id) guard in
      let (key, has_key, signed, h2) =
        with_key-ok first middle last
          (signing_key prims.on_curve c.jwks_cache_ttl header.key_id asked_at fetched cache).0 p
          (ap (λ (r : Result Code Principal × Cache). r.0) h1) in
      let (payload, has_payload, h3) = with_payload-ok (decode raw_url middle) p h2 in
      let (claims, has_claims, h4) = with_claims-ok (prims.claims_of payload) p h3 in
      let (valid, made) = validate_claims-IsValid c now claims p h4 in
      record {
        first = first;
        middle = middle;
        last = last;
        parts = parts;
        header_bytes = header_bytes;
        header = header;
        header_decoded = decoded;
        header_read = read;
        algorithm =
            (bytes_eq_iff header.algorithm (codes "ES256")).0
              (negated (bytes_eq header.algorithm (codes "ES256")) algorithm);
        key = key;
        keyed = has_key;
        known =
            signing_key-IsKnown prims.on_curve c.jwks_cache_ttl header.key_id asked_at fetched cache
              key has_key;
        signed = verify_es256-IsSigned key (first ++ (b'.' ∷ middle)) last signed;
        payload = payload;
        claims = claims;
        payload_decoded = has_payload;
        payload_read = has_claims;
        valid = valid;
        made = made;
      }

  with_header_bytes-IsVerified :
      (token first middle last : Bytes) (o : Option Bytes) (p : Principal) (left : Cache)
      → split_dot token ≡ first ∷ middle ∷ last ∷ []
      → decode raw_url first ≡ o
      → with_header_bytes prims c asked_at now first middle last fetched cache o ≡ (ok p, left)
      → IsVerified token p
  with_header_bytes-IsVerified token first middle last none p left parts decoded h = absurd (cc h)
  with_header_bytes-IsVerified token first middle last (some bytes) p left parts decoded h =
      with_header-IsVerified token first middle last bytes (prims.header_of bytes) p left parts
        decoded refl h

  with_parts-IsVerified :
      (token : Bytes) (ps : List Bytes) (p : Principal) (left : Cache)
      → split_dot token ≡ ps
      → with_parts prims c asked_at now fetched cache ps ≡ (ok p, left)
      → IsVerified token p
  with_parts-IsVerified token (first ∷ middle ∷ last ∷ []) p left parts h =
      with_header_bytes-IsVerified token first middle last (decode raw_url first) p left parts refl
        h
  with_parts-IsVerified token [] p left parts h = absurd (cc h)
  with_parts-IsVerified token (a ∷ []) p left parts h = absurd (cc h)
  with_parts-IsVerified token (a ∷ b ∷ []) p left parts h = absurd (cc h)
  with_parts-IsVerified token (a ∷ b ∷ d ∷ e ∷ ps) p left parts h = absurd (cc h)

  -- A token for which Verify returns a principal has three parts: a header that names ES256 and a
  -- key, which is the one
  -- that signingKey returns and that the cache or the issuer has under that ID, a payload, and a signature of
  -- 64 bytes that ECDSA accepts with that key over the first two parts as they were sent. The
  -- claims of the payload are for this issuer and resource, of mode access and type user, neither
  -- expired nor before their time by more than the skew, and of a subject that is "user:" and the
  -- user's ID, a ULID or a UUID; the principal is made from these claims.
  pub verify-IsVerified :
      (token : Bytes) (p : Principal) (left : Cache)
      → verify prims c token asked_at now fetched cache ≡ (ok p, left)
      → IsVerified token p
  unfolding verify
  verify-IsVerified token p left h = with_parts-IsVerified token (split_dot token) p left refl h
