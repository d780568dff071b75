-- ===== src/Operator/Proof/Reads.antt =====
-- What a verifier reads in the header pair that Sign of foundryoperator/foundryoperator.go makes.
use Prim.Native.String.{String}
use packages_go.Prelude.{
  ℕ, ◌<◌, ◌≡◌, refl, sym, ◌∙◌, ap, List, [], ◌∷◌, map, some, Bytes, codes, All, All-append,
  is_empty, Bool-cases, inl, inr, if◌then◌else◌, arith,
}
use packages_go.Encoding.Base64.{encode, decode, raw_url, std}
use packages_go.Encoding.Base64.RoundTrip.{IsByte, decode-encode, raw_url-IsSound, std-IsSound}
use packages_go.Encoding.Hex.{hex_digit}
use packages_go.Sorting.{before, insert, sort}
use packages_go.Operator.Canonical.{
  escaped, escaped_all, append_json_string, append_canonical, append_member, append_members,
  object_text,
}
use packages_go.Operator.Canonical.Flat.{text_member, read_flat, read_flat-object_text}
use packages_go.Operator.Proof.{Proof, Primitives, ok, proof_value, canonical_marshal, sealed}

module _ (prims : Primitives) where
  abbrev pub read_as : String → Bytes → Bytes × Bytes
  read_as name value = (codes name, prims.to_valid value)

  abbrev after_path : Proof → List (Bytes × Bytes)
  after_path p = read_as "principalKid" p.principal_kid ∷ read_as "protocol" p.protocol ∷ []

  abbrev query_read : Proof → List (Bytes × Bytes)
  query_read p =
      if is_empty p.normalized_query
      then after_path p
      else read_as "normalizedQuery" p.normalized_query ∷ after_path p

  -- The fields of a proof after the first, in the order of their names.
  abbrev later_fields : Proof → List (Bytes × Bytes)
  later_fields p =
      read_as "expiresAt" p.expires_at
      ∷ read_as "issuedAt" p.issued_at
      ∷ read_as "method" p.method
      ∷ read_as "nonce" p.nonce
      ∷ read_as "normalizedPath" p.normalized_path
      ∷ query_read p

  abbrev pub fields_read : Proof → List (Bytes × Bytes)
  fields_read p = read_as "bodySha256" p.body_sha256 ∷ later_fields p

  canonical_marshal-object_text :
      (p : Proof) → canonical_marshal prims p ≡ some (object_text (map text_member (fields_read p)))
  unfolding canonical_marshal proof_value append_canonical sort insert before
  canonical_marshal-object_text p = elim (Bool-cases (is_empty p.normalized_query)) [
    | inl e ↦ rw e refl
    | inr e ↦ rw e refl
  ]

  -- A proof can always be encoded.
  pub canonical_marshal-ok : (p : Proof) → (text : Bytes) × (canonical_marshal prims p ≡ some text)
  canonical_marshal-ok p =
      (object_text (map text_member (fields_read p)), canonical_marshal-object_text p)

All-escaped : (c : ℕ) (rest : Bytes) → c < 256 → All IsByte rest → All IsByte (escaped c rest)
unfolding escaped hex_digit
All-escaped c rest h k = ground arith

All-escaped_all :
    (s rest : Bytes) → All IsByte s → All IsByte rest → All IsByte (escaped_all s rest)
unfolding escaped_all
All-escaped_all [] rest h k = (omega arith, k)
All-escaped_all (c ∷ s) rest (h, l) k =
    All-escaped c (escaped_all s rest) h (All-escaped_all s rest l k)

All-append_json_string :
    (s rest : Bytes) → All IsByte s → All IsByte rest → All IsByte (append_json_string s rest)
unfolding append_json_string
All-append_json_string s rest h k = (omega arith, All-escaped_all s rest h k)

IsText : Bytes × Bytes → Type 0
IsText m = All IsByte m.0 × All IsByte m.1

All-append_member :
    (m : Bytes × Bytes) (rest : Bytes)
    → IsText m
    → All IsByte rest
    → All IsByte (append_member (text_member m) rest)
unfolding append_member IsText
All-append_member (key, value) rest (h, k) l = All-append_json_string key _ h (
  omega arith,
  All-append IsByte (append_json_string value []) rest (All-append_json_string value [] k tt) l,
)

All-append_members :
    (ms : List (Bytes × Bytes)) (rest : Bytes)
    → All IsText ms
    → All IsByte rest
    → All IsByte (append_members (map text_member ms) rest)
unfolding append_members
All-append_members [] rest h k = k
All-append_members (m ∷ ms) rest (h, l) k =
    (omega arith, All-append_member m _ h (All-append_members ms rest l k))

All-object_text :
    (m : Bytes × Bytes) (ms : List (Bytes × Bytes))
    → All IsText (m ∷ ms)
    → All IsByte (object_text (map text_member (m ∷ ms)))
unfolding object_text
All-object_text m ms (h, k) =
    (omega arith, All-append_member m _ h (All-append_members ms _ k (omega arith, tt)))

module _ (prims : Primitives) where
  -- What a verifier finds in a header pair that was signed with `key` for `p`.
  pub record IsSigned (key : Bytes) (p : Proof) (pair : Bytes × Bytes) : Type 0 where
    pub proof : Bytes
    pub decoded : decode raw_url pair.0 ≡ some proof
    pub fields : read_flat proof ≡ some (fields_read prims p)
    pub signature : decode std pair.1 ≡ some (prims.ed25519_sign key proof)

  module _ (valid_bytes : (s : Bytes) → All IsByte (prims.to_valid s))
      (signed_bytes : (key text : Bytes) → All IsByte (prims.ed25519_sign key text)) where
    fields_read-IsText : (p : Proof) → All IsText (fields_read prims p)
    unfolding IsText
    fields_read-IsText p =
        let kid : All IsText (after_path prims p) = (
          (omega arith, valid_bytes p.principal_kid),
          ((omega arith, valid_bytes p.protocol), tt),
        ) in
        let query : All IsText (query_read prims p) =
          elim (Bool-cases (is_empty p.normalized_query)) [
            | inl e ↦ rw e kid
            | inr e ↦ rw e ((omega arith, valid_bytes p.normalized_query), kid)
          ] in
        let later : All IsText (later_fields prims p) = (
          (omega arith, valid_bytes p.expires_at),
          (
            (omega arith, valid_bytes p.issued_at),
            (
              (omega arith, valid_bytes p.method),
              (
                (omega arith, valid_bytes p.nonce),
                ((omega arith, valid_bytes p.normalized_path), query),
              ),
            ),
          ),
        ) in
        ((omega arith, valid_bytes p.body_sha256), later)

    pub sealed-IsSigned :
        (key : Bytes) (p : Proof) (pair : Bytes × Bytes)
        → sealed prims key (canonical_marshal prims p) ≡ ok pair
        → IsSigned key p pair
    sealed-IsSigned key p pair h =
        let text : Bytes = object_text (map text_member (fields_read prims p)) in
        let bytes : All IsByte text =
          All-object_text (read_as prims "bodySha256" p.body_sha256) (later_fields prims p)
            (fields_read-IsText p) in
        let signature : Bytes = prims.ed25519_sign key text in
        let made : ok (encode raw_url text, encode std signature) ≡ ok pair =
          ap (sealed prims key) (sym (canonical_marshal-object_text prims p)) ∙ h in
        let same : (encode raw_url text, encode std signature) ≡ pair = cc in
        record {
          proof = text;
          decoded =
              ap (λ (q : Bytes × Bytes). decode raw_url q.0) (sym same)
              ∙ decode-encode raw_url raw_url-IsSound text bytes;
          fields =
              read_flat-object_text (read_as prims "bodySha256" p.body_sha256)
                (later_fields prims p);
          signature =
              ap (λ (q : Bytes × Bytes). decode std q.1) (sym same)
              ∙ decode-encode std std-IsSound signature (signed_bytes key text);
        }
