-- ===== src/Github/Client/Maps.antt =====
-- The laws of the string-keyed maps behind the client's mutex.
use packages_go.Prelude.{
  ◌≡◌, List, [], ◌∷◌, none, some, Bytes, bytes_eq, bytes_eq_iff, if◌then◌else◌, arith,
}
use packages_go.Github.Client.{lookup, delete, store}

module _ {ℓ} {V : Type ℓ} where
  pub lookup-delete :
      (k j : Bytes) (m : List (Bytes × V))
      → lookup j (delete k m) ≡ (if bytes_eq k j then none else lookup j m)
  unfolding lookup delete
  lookup-delete k j [] = ground arith
  lookup-delete k j ((i, v) ∷ m) =
      ground (arith, lookup-delete k j m, bytes_eq_iff i k, bytes_eq_iff i j, bytes_eq_iff k j)

  pub lookup-store :
      (k j : Bytes) (v : V) (m : List (Bytes × V))
      → lookup j (store k v m) ≡ (if bytes_eq k j then some v else lookup j m)
  unfolding store lookup
  lookup-store k j v m = ground (arith, lookup-delete k j m)
