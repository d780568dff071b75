-- ===== src/Auth/Subject.antt =====
-- userSubjectPattern of auth/verify.go: "user:" and a ULID, or a UUID of versions 1 to 8 in either case.
use packages_go.Prelude.{
  ℕ, zero, suc, Bool, true, false, ◌||◌, ◌&&◌, List, [], ◌∷◌, ◌++◌, Option, none, some, Bytes,
  codes, leb, ◌==◌, if◌then◌else◌, has_prefix, drop, is_digit,
}

abbrev within : ℕ → ℕ → ℕ → Bool
within low high c = leb low c && leb c high

-- One character of the text for each test.
unfoldable pub fits : List (ℕ → Bool) → Bytes → Bool
fits [] [] = true
fits (t ∷ ts) (c ∷ s) = t c && fits ts s
fits _ _ = false

unfoldable pub times : ℕ → (ℕ → Bool) → List (ℕ → Bool)
times zero t = []
times (suc n) t = t ∷ times n t

abbrev is_ulid_char : ℕ → Bool
is_ulid_char c =
    is_digit c
    || (within b'A' b'H' c
        || ((c == b'J')
            || ((c == b'K')
                || ((c == b'M') || ((c == b'N') || (within b'P' b'T' c || within b'V' b'Z' c))))))

abbrev is_hex : ℕ → Bool
is_hex c = is_digit c || (within b'a' b'f' c || within b'A' b'F' c)

abbrev is_dash : ℕ → Bool
is_dash c = c == b'-'

abbrev is_variant : ℕ → Bool
is_variant c =
    (c == b'8') || ((c == b'9') || ((c == b'a') || ((c == b'b') || ((c == b'A') || (c == b'B')))))

unfoldable pub is_ulid : Bytes → Bool
unfolding fits times
is_ulid s = fits (within b'0' b'7' ∷ times 25 is_ulid_char) s

unfoldable pub is_uuid : Bytes → Bool
unfolding fits times
is_uuid s =
    fits
      (times 8 is_hex
        ++ (is_dash
            ∷ (times 4 is_hex
                ++ (is_dash
                    ∷ within b'1' b'8'
                    ∷ (times 3 is_hex
                        ++ (is_dash
                            ∷ is_variant
                            ∷ (times 3 is_hex ++ (is_dash ∷ times 12 is_hex))))))))
      s

-- The group that the pattern captures.
unfoldable pub subject_id : Bytes → Option Bytes
unfolding has_prefix is_ulid is_uuid
subject_id subject =
    let id = drop 5 subject in
    if has_prefix subject (codes "user:") && (is_ulid id || is_uuid id) then some id else none
