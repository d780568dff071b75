-- ===== src/Github/Permissions/Order.antt =====
-- The key of a permission map does not depend on the order of the range loop.
use mathlib.Core.List.{Perm, Permᴰ, reverse}
use mathlib.Core.Logic.{∥∥₁_elim}
use packages_go.Prelude.{◌≡◌, refl, sym, ap, ◌∙◌, true, false, List, [], ◌∷◌, Bytes, arith}
use packages_go.Github.Permissions.{
  Permissions, bytes_lt, sink, sort_onto, sort_strings, keys, value, entries_text, key,
}

bytes_lt_asym : (a b : Bytes) → bytes_lt a b ≡ true → bytes_lt b a ≡ false
unfolding bytes_lt
bytes_lt_asym (x ∷ a) (y ∷ b) h = ground (arith, bytes_lt_asym a b)
bytes_lt_asym _ _ h = ground arith

bytes_lt_connex : (a b : Bytes) → bytes_lt a b ≡ false → bytes_lt b a ≡ false → a ≡ b
unfolding bytes_lt
bytes_lt_connex (x ∷ a) (y ∷ b) h k = ground (arith, bytes_lt_connex a b)
bytes_lt_connex _ _ h k = ground arith

bytes_lt-of-not : (a p b : Bytes) → bytes_lt a p ≡ true → bytes_lt b p ≡ false → bytes_lt a b ≡ true
unfolding bytes_lt
bytes_lt-of-not (x ∷ a) (z ∷ p) (y ∷ b) h k = ground (arith, bytes_lt-of-not a p b)
bytes_lt-of-not _ _ _ h k = ground arith

-- Two insertions commute, whatever the list holds.
sink_comm : (x y : Bytes) (done : List Bytes) → sink x (sink y done) ≡ sink y (sink x done)
unfolding sink
sink_comm x y [] = ground (arith, bytes_lt_asym x y, bytes_lt_connex x y)
sink_comm x y (p ∷ ps) = ground (
  arith,
  sink_comm x y ps,
  bytes_lt_asym x y,
  bytes_lt_asym y x,
  bytes_lt_connex x y,
  bytes_lt-of-not x p y,
  bytes_lt-of-not y p x,
)

sort_onto-Permᴰ :
    {s t : List Bytes} (done : List Bytes) → Permᴰ s t → sort_onto done s ≡ sort_onto done t
unfolding sort_onto
sort_onto-Permᴰ done Permᴰ.nil = refl
sort_onto-Permᴰ done (Permᴰ.cons {a} {b} {l₁} {l₂} e d) = rw e (sort_onto-Permᴰ (sink b done) d)
sort_onto-Permᴰ done (Permᴰ.swap {a} {b} {a' = c} {b' = d} {l} e f) =
    rw (e, f) (ap (λ s. sort_onto s l) (sink_comm c d done))
sort_onto-Permᴰ done (Permᴰ.trans d e) = sort_onto-Permᴰ done d ∙ sort_onto-Permᴰ done e

bytes_list_set : IsSet (List Bytes)
bytes_list_set = hlevel

sort_strings-perm : {s t : List Bytes} → Perm s t → sort_strings s ≡ sort_strings t
unfolding sort_strings
sort_strings-perm p = ∥∥₁_elim p (bytes_list_set _ _) (λ d. ap reverse (sort_onto-Permᴰ [] d))

entries_text-value :
    (p q : Permissions) (ks : List Bytes)
    → ((k : Bytes) → value k p ≡ value k q)
    → entries_text p ks ≡ entries_text q ks
unfolding entries_text
entries_text-value p q [] h = refl
entries_text-value p q (k ∷ ks) h = rw (h k, entries_text-value p q ks h)

key-entries_text : (p : Permissions) → key p ≡ entries_text p (sort_strings (keys p))
unfolding key
key-entries_text [] = refl
key-entries_text (e ∷ p) = refl

-- Two range loops over one map, that is over the same names with the same values, give one key.
pub key-perm :
    (p q : Permissions)
    → Perm (keys p) (keys q)
    → ((k : Bytes) → value k p ≡ value k q)
    → key p ≡ key q
key-perm p q names values =
    key-entries_text p
    ∙ ap (entries_text p) (sort_strings-perm names)
    ∙ entries_text-value p q (sort_strings (keys q)) values
    ∙ sym (key-entries_text q)
