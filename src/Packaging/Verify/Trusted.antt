-- ===== src/Packaging/Verify/Trusted.antt =====
-- Which manifests the loop of VerifyAny of packaging/manifest.go over the keys lets through.
use packages_go.Prelude.{
  ◌≡◌, refl, ◌⊎◌, inl, inr, true, List, [], ◌∷◌, Bytes, length, ◌==◌, Bool-cases, ==_iff,
}
use packages_go.Packaging.Manifest.{ok, Primitives}
use packages_go.Packaging.Verify.{public_key_size, authenticated}

module _ (prims : Primitives) where
  -- One of the keys authenticates the text, and the keys up to it have the size of a key.
  abbrev pub IsTrusted : List Bytes → Bytes → Bytes → Type 0
  IsTrusted [] text signature = ⊥
  IsTrusted (key ∷ keys) text signature =
      (length key ≡ public_key_size)
      × ((prims.ed25519_verify key text signature ≡ true) ⊎ IsTrusted keys text signature)

  pub authenticated-IsTrusted :
      (keys : List Bytes) (text signature : Bytes)
      → authenticated prims keys text signature ≡ ok true
      → IsTrusted keys text signature
  unfolding authenticated
  authenticated-IsTrusted [] text signature h = cc
  authenticated-IsTrusted (key ∷ keys) text signature h =
      elim (Bool-cases (length key == public_key_size)) [
        | inr e ↦ absurd (cc (h, e))
        | inl e ↦
            let size : length key ≡ public_key_size = (==_iff (length key) public_key_size).0 e in
            elim (Bool-cases (prims.ed25519_verify key text signature)) [
              | inl k ↦ (size, inl k)
              | inr k ↦ (size, inr (authenticated-IsTrusted keys text signature (rw (e, k) at h)))
            ]
      ]

  pub IsTrusted-authenticated :
      (keys : List Bytes) (text signature : Bytes)
      → IsTrusted keys text signature
      → authenticated prims keys text signature ≡ ok true
  unfolding authenticated
  IsTrusted-authenticated [] text signature h = absurd h
  IsTrusted-authenticated (key ∷ keys) text signature (size, h) =
      let e : (length key == public_key_size) ≡ true =
        (==_iff (length key) public_key_size).1 size in
      elim (Bool-cases (prims.ed25519_verify key text signature)) [
        | inl k ↦ rw (e, k) refl
        | inr k ↦ elim h [
          | inl l ↦ absurd (cc (k, l))
          | inr l ↦ rw (e, k) (IsTrusted-authenticated keys text signature l)
        ]
      ]
