-- ===== src/Sorting.antt =====
-- sort.Strings and sort.Slice by a string key, where no two elements have the same key. The order
-- of strings is Go's, byte by byte.
pub mod Order
use packages_go.Prelude.{
  ℕ, Bool, true, false, ◌&&◌, ◌||◌, List, [], ◌∷◌, Bytes, ltb, ◌==◌, if◌then◌else◌,
}

-- left < right
unfoldable pub before : Bytes → Bytes → Bool
before [] [] = false
before [] (y ∷ b) = true
before (x ∷ a) [] = false
before (x ∷ a) (y ∷ b) = ltb x y || ((x == y) && before a b)

module _ {A : Type 0} (key : A → Bytes) where
  unfoldable pub insert : A → List A → List A
  unfolding before
  insert x [] = x ∷ []
  insert x (y ∷ ys) =
      let later = insert x ys in if before (key y) (key x) then y ∷ later else x ∷ y ∷ ys

  unfoldable pub sort : List A → List A
  unfolding insert
  sort [] = []
  sort (x ∷ xs) = insert x (sort xs)
