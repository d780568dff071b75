-- ===== src/Projects/Formats/Ids.antt =====
-- The IDs of NewMutationID of fulcrumprojects/envelope.go.
use packages_go.Prelude.{
  ℕ, zero, suc, ◌+◌, ◌≡◌, refl, [], ◌∷◌, ◌++◌, Bytes, length, length-append, arith, take, drop,
  length-take, length-drop, ◌%◌, ◌∙◌,
}
use packages_go.Encoding.Hex.{hex_encode}
use packages_go.Projects.Formats.{set_at, new_mutation_id, versioned}

length-set_at : (n : ℕ) (f : ℕ → ℕ) (s : Bytes) → length (set_at n f s) ≡ length s
unfolding set_at
length-set_at n f [] = refl
length-set_at zero f (c ∷ s) = refl
length-set_at (suc n) f (c ∷ s) = omega (arith, length-set_at n f s)

length-hex_encode : (s : Bytes) → length (hex_encode s) ≡ length s + length s
unfolding hex_encode
length-hex_encode [] = refl
length-hex_encode (c ∷ s) = omega (arith, length-hex_encode s)

length-parts :
    (a b c d e : Bytes)
    → length (a ++ (b'-' ∷ (b ++ (b'-' ∷ (c ++ (b'-' ∷ (d ++ (b'-' ∷ e))))))))
      ≡ length a + length b + length c + length d + length e + 4
length-parts a b c d e =
    let fourth = length-append d (b'-' ∷ e) in
    let third = length-append c (b'-' ∷ (d ++ (b'-' ∷ e))) in
    let second = length-append b (b'-' ∷ (c ++ (b'-' ∷ (d ++ (b'-' ∷ e))))) in
    let first = length-append a (b'-' ∷ (b ++ (b'-' ∷ (c ++ (b'-' ∷ (d ++ (b'-' ∷ e))))))) in
    omega (arith, first, second, third, fourth)

-- An ID has 36 characters.
pub length-new_mutation_id : (raw : Bytes) → length raw ≡ 16 → length (new_mutation_id raw) ≡ 36
unfolding new_mutation_id
length-new_mutation_id raw h =
    let b = versioned raw in
    let inner = length-set_at 6 (λ c. c % 16 + 0x40) raw in
    let outer = length-set_at 8 (λ c. c % 64 + 0x80) (set_at 6 (λ c. c % 16 + 0x40) raw) in
    let size : length b ≡ 16 = outer ∙ inner ∙ h in
    let parts =
      length-parts (hex_encode (take 4 b)) (hex_encode (take 2 (drop 4 b)))
        (hex_encode (take 2 (drop 6 b))) (hex_encode (take 2 (drop 8 b)))
        (hex_encode (drop 10 b)) in
    omega (
      arith,
      parts,
      size,
      length-hex_encode (take 4 b),
      length-hex_encode (take 2 (drop 4 b)),
      length-hex_encode (take 2 (drop 6 b)),
      length-hex_encode (take 2 (drop 8 b)),
      length-hex_encode (drop 10 b),
      length-take 4 b,
      length-take 2 (drop 4 b),
      length-take 2 (drop 6 b),
      length-take 2 (drop 8 b),
      length-drop 4 b,
      length-drop 6 b,
      length-drop 8 b,
      length-drop 10 b,
    )
