-- ===== src/Auth/Keys/Known.antt =====
-- Which keys signingKey of auth/jwks.go returns.
use packages_go.Prelude.{ℕ, ◌≡◌, refl, Bool, ◌⊎◌, inl, inr, Option, none, some, Bytes, Bool-cases}
use packages_go.Errors.{ok}
use packages_go.Auth.Keys.{
  PublicKey, Fetched, Keys, Cache, lookup, fetch_jwks, published, stale, after_fetch, is_fresh,
  signing_key,
}

module _ (on_curve : ℕ → ℕ → Bool) where
  stale-ok : (o : Option PublicKey) (key : PublicKey) → stale on_curve o ≡ ok key → o ≡ some key
  stale-ok none key h = cc
  stale-ok (some known) key h = cc

  published-ok :
      (o : Option PublicKey) (key : PublicKey) → published on_curve o ≡ ok key → o ≡ some key
  published-ok none key h = cc
  published-ok (some known) key h = cc

  -- Under the ID, in the cache or in the document that was fetched.
  abbrev pub IsKnown : Bytes → Fetched → Cache → PublicKey → Type 0
  IsKnown kid fetched cache key =
      (lookup kid cache.keys ≡ some key)
      ⊎ ((keys : Keys) × (fetch_jwks on_curve fetched ≡ some keys) × (lookup kid keys ≡ some key))

  after_fetch-IsKnown :
      (kid : Bytes) (now : ℕ) (fetched : Fetched) (cache : Cache) (o : Option Keys)
      (key : PublicKey)
      → fetch_jwks on_curve fetched ≡ o
      → (after_fetch on_curve kid now (lookup kid cache.keys) cache o).0 ≡ ok key
      → IsKnown kid fetched cache key
  after_fetch-IsKnown kid now fetched cache none key e h =
      inl (stale-ok (lookup kid cache.keys) key h)
  after_fetch-IsKnown kid now fetched cache (some keys) key e h =
      inr (keys, e, published-ok (lookup kid keys) key h)

  pub signing_key-IsKnown :
      (ttl : ℕ) (kid : Bytes) (now : ℕ) (fetched : Fetched) (cache : Cache) (key : PublicKey)
      → (signing_key on_curve ttl kid now fetched cache).0 ≡ ok key
      → IsKnown kid fetched cache key
  unfolding signing_key
  signing_key-IsKnown ttl kid now fetched cache key h =
      elim (Bool-cases (is_fresh on_curve ttl now (lookup kid cache.keys) cache)) [
        | inl e ↦
            let kept : stale on_curve (lookup kid cache.keys) ≡ ok key = rw e at h in
            inl (stale-ok (lookup kid cache.keys) key kept)
        | inr e ↦
            let asked : (after_fetch on_curve kid now (lookup kid cache.keys) cache
                  (fetch_jwks on_curve fetched)).0
                ≡ ok key =
              rw e at h in
            after_fetch-IsKnown kid now fetched cache (fetch_jwks on_curve fetched) key refl asked
      ]
