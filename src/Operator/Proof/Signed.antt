-- ===== src/Operator/Proof/Signed.antt =====
-- When Sign of foundryoperator/foundryoperator.go makes a header pair, and what the pair says.
use packages_go.Prelude.{
  ℕ, ◌≡◌, refl, ◌∙◌, true, ◌==◌, Option, none, some, Bytes, All, length, Bool-cases, inl, inr,
  ==_iff,
}
use packages_go.Encoding.Base64.{encode, raw_url, std}
use packages_go.Encoding.Base64.RoundTrip.{IsByte}
use packages_go.Operator.Proof.{
  Proof, Primitives, Outcome, ok, canonical_marshal, proof_of, sign, nonce_of, matches_kid,
  valid_nonce, private_key_size, with_nonce, sealed,
}
use packages_go.Operator.Proof.Nonces.{IsNonce, valid_nonce_iff}
use packages_go.Operator.Proof.Reads.{IsSigned, sealed-IsSigned, canonical_marshal-ok}

-- What Sign asks of its arguments before it signs.
pub record IsAcceptable (key kid : Bytes) (nonce_value : Option Bytes) : Type 0 where
  pub kid_matches : matches_kid kid ≡ true
  pub key_size : length key ≡ private_key_size
  pub nonce : Bytes
  pub nonce_given : nonce_value ≡ some nonce
  pub nonce_good : IsNonce nonce

module _ (prims : Primitives) where
  with_nonce-ok :
      (key : Bytes) (proof : Bytes → Proof) (given : Option Bytes) (pair : Bytes × Bytes)
      → with_nonce prims key proof given ≡ ok pair
      → (n : Bytes) × (given ≡ some n)
        × (valid_nonce n ≡ true)
        × (sealed prims key (canonical_marshal prims (proof n)) ≡ ok pair)
  with_nonce-ok key proof none pair h = cc
  with_nonce-ok key proof (some n) pair h = elim (Bool-cases (valid_nonce n)) [
    | inl e ↦ (n, refl, e, (rw e at h))
    | inr e ↦ absurd (cc (h, e))
  ]

  module _ (key kid method path query body : Bytes) (now : ℕ) (nonce : Option (Option Bytes))
      (random : Option Bytes) where
    abbrev signed : Outcome (Bytes × Bytes)
    signed = sign prims key kid method path query body now nonce random

    abbrev proof_for : Bytes → Proof
    proof_for n = proof_of prims kid n method path query body now

    sign-passes :
        (pair : Bytes × Bytes)
        → signed ≡ ok pair
        → (matches_kid kid ≡ true)
          × (length key ≡ private_key_size)
          × (with_nonce prims key proof_for (nonce_of nonce random) ≡ ok pair)
    unfolding sign
    sign-passes pair h = elim (Bool-cases (matches_kid kid)) [
      | inr e ↦ absurd (cc (h, e))
      | inl e ↦ elim (Bool-cases (length key == private_key_size)) [
        | inr k ↦ absurd (cc (h, e, k))
        | inl k ↦ (e, (==_iff (length key) private_key_size).0 k, rw (e, k) at h)
      ]
    ]

    -- Sign makes a header pair only for a principal kid of the syntax, a private key of the right
    -- size and a nonce that is at hand and valid.
    pub sign-IsAcceptable :
        (pair : Bytes × Bytes) → signed ≡ ok pair → IsAcceptable key kid (nonce_of nonce random)
    sign-IsAcceptable pair h =
        let (matched, size, passed) = sign-passes pair h in
        let (n, given, good, _) = with_nonce-ok key proof_for (nonce_of nonce random) pair passed in
        record {
          kid_matches = matched;
          key_size = size;
          nonce = n;
          nonce_given = given;
          nonce_good = (valid_nonce_iff n).0 good;
        }

    sign-sealed :
        (a : IsAcceptable key kid (nonce_of nonce random))
        → signed ≡ sealed prims key (canonical_marshal prims (proof_for a.nonce))
    unfolding sign
    sign-sealed a =
        let size : (length key == private_key_size) ≡ true =
          (==_iff (length key) private_key_size).1 a.key_size in
        rw (a.kid_matches, size, a.nonce_given, (valid_nonce_iff a.nonce).1 a.nonce_good) refl

    -- Where to_valid and ed25519_sign return bytes, below 256, Sign does make a header pair for a kid,
    -- a key and a nonce that pass its checks, whatever the request. The first header decodes to a
    -- text in which a reader of JSON finds the fields of the proof of this request, in the order of
    -- their names, the query only if it is not empty; the second decodes to the signature of that
    -- text under the key.
    pub sign-IsSigned :
        ((s : Bytes) → All IsByte (prims.to_valid s))
        → ((k text : Bytes) → All IsByte (prims.ed25519_sign k text))
        → (a : IsAcceptable key kid (nonce_of nonce random))
        → (pair : Bytes × Bytes) × (signed ≡ ok pair) × IsSigned prims key (proof_for a.nonce) pair
    sign-IsSigned valid_bytes signed_bytes a =
        let (text, made) = canonical_marshal-ok prims (proof_for a.nonce) in
        let pair : Bytes × Bytes =
          (encode raw_url text, encode std (prims.ed25519_sign key text)) in
        let given : sealed prims key (canonical_marshal prims (proof_for a.nonce)) ≡ ok pair =
          rw made refl in
        (
          pair,
          sign-sealed a ∙ given,
          sealed-IsSigned prims valid_bytes signed_bytes key (proof_for a.nonce) pair given,
        )
