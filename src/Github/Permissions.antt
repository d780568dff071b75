-- ===== src/Github/Permissions.antt =====
-- github/types.go: the permission map and its order-independent key. A map is its list of entries in
-- the order in which the range loop meets them. Values are immutable here, so clone is not needed.
pub mod Order
use mathlib.Core.List.{reverse}
use packages_go.Prelude.{
  ℕ, Bool, true, false, ◌&&◌, ◌||◌, List, [], ◌∷◌, ◌++◌, map, Bytes, bytes_eq, ltb, ◌==◌,
  if◌then◌else◌, Option, none, some,
}

abbrev pub Permissions : Type 0
Permissions = List (Bytes × Bytes)

-- left < right on strings
unfoldable pub bytes_lt : Bytes → Bytes → Bool
bytes_lt [] [] = false
bytes_lt [] (y ∷ b) = true
bytes_lt (x ∷ a) [] = false
bytes_lt (x ∷ a) (y ∷ b) = ltb x y || ((x == y) && bytes_lt a b)

-- The inner loop of sortStrings: s[j] moves left past every s[j-1] > s[j]. The sorted part is
-- written from its right end.
unfoldable pub sink : Bytes → List Bytes → List Bytes
sink x [] = x ∷ []
sink x (p ∷ ps) = if bytes_lt x p then p ∷ sink x ps else x ∷ p ∷ ps

unfoldable pub sort_onto : List Bytes → List Bytes → List Bytes
sort_onto done [] = done
sort_onto done (x ∷ xs) = sort_onto (sink x done) xs

unfoldable pub sort_strings : List Bytes → List Bytes
unfolding sort_onto
sort_strings s = reverse (sort_onto [] s)

abbrev pub keys : Permissions → List Bytes
keys [] = []
keys ((k, v) ∷ p) = k ∷ keys p

-- p[k], "" when absent
unfoldable pub value : Bytes → Permissions → Bytes
value k [] = []
value k ((j, v) ∷ p) = if bytes_eq j k then v else value k p

unfoldable pub entries_text : Permissions → List Bytes → Bytes
entries_text p [] = []
entries_text p (k ∷ ks) = k ++ (b'=' ∷ (value k p ++ (b';' ∷ entries_text p ks)))

-- The early return for an empty map agrees with the loop over no keys.
unfoldable pub key : Permissions → Bytes
unfolding entries_text sort_strings
key [] = []
key (e ∷ p) = entries_text (e ∷ p) (sort_strings (keys (e ∷ p)))
