-- ===== src/Projects/Formats.antt =====
-- NewMutationID and AdmitsStatus of fulcrumprojects/envelope.go, and the patterns of
-- fulcrumprojects/mutations.go. A call of rand.Read is the 16 bytes that it fills in.
pub mod Ids
use packages_go.Prelude.{
  ℕ, zero, suc, ◌+◌, ◌%◌, Bool, true, false, not, ◌||◌, ◌&&◌, ◌==◌, ltb, leb, List, [], ◌∷◌, ◌++◌,
  Option, none, some, Bytes, codes, bytes_eq, is_empty, length, take, drop, ltb_ℤ, ℤ, pos,
  decimal_ℤ, is_digit, if◌then◌else◌,
}
use packages_go.Encoding.Hex.{hex_encode}

abbrev is_slug_char : ℕ → Bool
is_slug_char c = (leb b'a' c && leb c b'z') || is_digit c

-- What may follow: `ready` is whether the last character was a letter or a digit.
unfoldable pub slug_from : Bool → Bytes → Bool
slug_from ready [] = ready
slug_from ready (c ∷ s) =
    let inner = slug_from true s in
    let next = slug_from false s in
    if is_slug_char c then inner else if (c == b'-') && ready then next else false

-- slugPattern.MatchString, for ^[a-z0-9]+(?:-[a-z0-9]+)*$
unfoldable pub matches_slug : Bytes → Bool
unfolding slug_from
matches_slug s = slug_from false s

-- datePattern.MatchString, for ^\d{4}-\d{2}-\d{2}$
unfoldable pub matches_date : Bytes → Bool
matches_date (a ∷ b ∷ c ∷ d ∷ e ∷ f ∷ g ∷ h ∷ i ∷ j ∷ []) =
    is_digit a
    && (is_digit b
        && (is_digit c
            && (is_digit d
                && ((e == b'-')
                    && (is_digit f
                        && (is_digit g && ((h == b'-') && (is_digit i && is_digit j))))))))
matches_date _ = false

unfoldable pub one_of : Bytes → List Bytes → Bool
unfolding bytes_eq
one_of s [] = false
one_of s (t ∷ ts) = bytes_eq s t || one_of s ts

unfoldable pub admits_status : Bytes → Bool
unfolding one_of
admits_status status = one_of status (
    codes "Next"
    ∷ codes "Waiting"
    ∷ codes "Decision"
    ∷ codes "Setup"
    ∷ codes "Blocked"
    ∷ codes "Someday"
    ∷ codes "Scheduled"
    ∷ [])

unfoldable pub set_at : ℕ → (ℕ → ℕ) → Bytes → Bytes
set_at n f [] = []
set_at zero f (c ∷ s) = f c ∷ s
set_at (suc n) f (c ∷ s) = c ∷ set_at n f s

abbrev pub versioned : Bytes → Bytes
versioned raw = set_at 8 (λ b. b % 64 + 0x80) (set_at 6 (λ b. b % 16 + 0x40) raw)

unfoldable pub new_mutation_id : Bytes → Bytes
unfolding set_at hex_encode
new_mutation_id raw =
    let b = versioned raw in
    hex_encode (take 4 b)
    ++ (b'-'
        ∷ (hex_encode (take 2 (drop 4 b))
            ++ (b'-'
                ∷ (hex_encode (take 2 (drop 6 b))
                    ++ (b'-'
                        ∷ (hex_encode (take 2 (drop 8 b)) ++ (b'-' ∷ hex_encode (drop 10 b))))))))
