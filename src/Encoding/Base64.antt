-- ===== src/Encoding/Base64.antt =====
-- base64.RawURLEncoding and base64.StdEncoding. A decoder reads groups of four characters; like
-- Go's, it does not check the bits that a last, shorter group leaves over.
pub mod RoundTrip
use packages_go.Prelude.{
  ℕ, zero, suc, ◌+◌, ◌-◌, ◌*◌, ◌/◌, ◌%◌, ◌<◌, ◌≡◌, refl, ap, ◌∙◌, Bool, true, false, ◌&&◌, ◌||◌, [],
  ◌∷◌, ◌++◌, Option, none, some, Bytes, All, ltb, leb, ◌==◌, if◌then◌else◌, arith, Bool-cases, inl,
  inr, ==_iff,
}

-- The two last characters of an alphabet, and whether a short group is filled up with '='.
pub record Alphabet : Type 0 where
  pub char62 : ℕ
  pub char63 : ℕ
  pub padded : Bool

abbrev pub raw_url : Alphabet
raw_url = record { char62 = b'-'; char63 = b'_'; padded = false }

abbrev pub std : Alphabet
std = record { char62 = b'+'; char63 = b'/'; padded = true }

module _ (a : Alphabet) where
  unfoldable pub char_of : ℕ → ℕ
  char_of n =
      if ltb n 26
      then b'A' + n
      else if ltb n 52
      then b'a' + (n - 26)
      else if ltb n 62
      then b'0' + (n - 52)
      else if n == 62
      then a.char62
      else a.char63

  unfoldable pub value_of : ℕ → Option ℕ
  value_of c =
      if leb b'A' c && leb c b'Z'
      then some (c - b'A')
      else if leb b'a' c && leb c b'z'
      then some (c - b'a' + 26)
      else if leb b'0' c && leb c b'9'
      then some (c - b'0' + 52)
      else if c == a.char62
      then some 62
      else if c == a.char63
      then some 63
      else none

  abbrev pub fill : Bytes → Bytes
  fill pad = if a.padded then pad else []

  unfoldable pub encode : Bytes → Bytes
  unfolding char_of
  encode [] = []
  encode (x ∷ []) = char_of (x / 4) ∷ char_of (x % 4 * 16) ∷ fill (b'=' ∷ b'=' ∷ [])
  encode (x ∷ y ∷ []) =
      char_of (x / 4) ∷ char_of (x % 4 * 16 + y / 16) ∷ char_of (y % 16 * 4) ∷ fill (b'=' ∷ [])
  encode (x ∷ y ∷ z ∷ s) =
      char_of (x / 4)
      ∷ char_of (x % 4 * 16 + y / 16)
      ∷ char_of (y % 16 * 4 + z / 64)
      ∷ char_of (z % 64)
      ∷ encode s

  abbrev pub one_of : Option ℕ → Option ℕ → Option Bytes
  one_of (some p) (some q) = let group : Bytes = (p * 4 + q / 16) ∷ [] in some group
  one_of _ _ = none

  abbrev pub two_of : Option ℕ → Option ℕ → Option ℕ → Option Bytes
  two_of (some p) (some q) (some r) =
      let group : Bytes = (p * 4 + q / 16) ∷ (q % 16 * 16 + r / 4) ∷ [] in some group
  two_of _ _ _ = none

  abbrev pub three_of : Option ℕ → Option ℕ → Option ℕ → Option ℕ → Option Bytes → Option Bytes
  three_of (some p) (some q) (some r) (some t) (some rest) =
      let group : Bytes = (p * 4 + q / 16) ∷ (q % 16 * 16 + r / 4) ∷ (r % 4 * 64 + t) ∷ rest in
      some group
  three_of _ _ _ _ _ = none

  -- The last group of four characters.
  abbrev pub last_group : ℕ → ℕ → ℕ → ℕ → Option Bytes
  last_group p q r t =
      if a.padded && (t == b'=')
      then if r == b'='
        then one_of (value_of p) (value_of q)
        else two_of (value_of p) (value_of q) (value_of r)
      else three_of (value_of p) (value_of q) (value_of r) (value_of t) (some [])

  unfoldable pub decode_groups : Bytes → Option Bytes
  unfolding value_of
  decode_groups [] = some []
  decode_groups (p ∷ []) = none
  decode_groups (p ∷ q ∷ []) = if a.padded then none else one_of (value_of p) (value_of q)
  decode_groups (p ∷ q ∷ r ∷ []) =
      if a.padded then none else two_of (value_of p) (value_of q) (value_of r)
  decode_groups (p ∷ q ∷ r ∷ t ∷ []) = last_group p q r t
  decode_groups (p ∷ q ∷ r ∷ t ∷ c ∷ s) =
      three_of (value_of p) (value_of q) (value_of r) (value_of t) (decode_groups (c ∷ s))

-- CR and LF are skipped wherever they stand.
unfoldable pub without_newlines : Bytes → Bytes
without_newlines [] = []
without_newlines (c ∷ s) =
    let rest = without_newlines s in if c == b'\n' || c == b'\r' then rest else c ∷ rest

unfoldable pub decode : Alphabet → Bytes → Option Bytes
unfolding decode_groups without_newlines
decode a s = decode_groups a (without_newlines s)
