-- ===== src/Encoding/Base64/RoundTrip.antt =====
-- Decoding gives back what was encoded, for both alphabets.
use packages_go.Prelude.{
  ℕ, ◌+◌, ◌-◌, ◌*◌, ◌/◌, ◌%◌, ◌<◌, ◌≡◌, refl, ap, ◌∙◌, false, ◌||◌, [], ◌∷◌, Option, none, some,
  Bytes, All, ◌==◌, arith, Bool-cases, inl, inr, ==_iff,
}
use packages_go.Encoding.Base64.{
  Alphabet, raw_url, std, char_of, value_of, encode, three_of, fill, decode_groups,
  without_newlines, decode,
}

abbrev pub IsByte : ℕ → Type 0
IsByte c = c < 256

-- The alphabet's own two characters are read as 62 and 63, and '=' stands for no value.
pub record IsSound (a : Alphabet) : Type 0 where
  pub at62 : value_of a a.char62 ≡ some 62
  pub at63 : value_of a a.char63 ≡ some 63
  pub no_pad : value_of a b'=' ≡ none
  pub no_cr : value_of a b'\r' ≡ none
  pub no_lf : value_of a b'\n' ≡ none

pub raw_url-IsSound : IsSound raw_url
unfolding value_of
raw_url-IsSound = record { at62 = refl; at63 = refl; no_pad = refl; no_cr = refl; no_lf = refl }

pub std-IsSound : IsSound std
unfolding value_of
std-IsSound = record { at62 = refl; at63 = refl; no_pad = refl; no_cr = refl; no_lf = refl }

module _ (a : Alphabet) (sound : IsSound a) where
  value_of-upper : (n : ℕ) → n < 26 → value_of a (b'A' + n) ≡ some n
  unfolding value_of
  value_of-upper n h = ground arith

  value_of-lower : (n : ℕ) → n < 26 → value_of a (b'a' + n) ≡ some (n + 26)
  unfolding value_of
  value_of-lower n h = ground arith

  value_of-digit : (n : ℕ) → n < 10 → value_of a (b'0' + n) ≡ some (n + 52)
  unfolding value_of
  value_of-digit n h = ground arith

  value_of-char_of : (n : ℕ) → n < 64 → value_of a (char_of a n) ≡ some n
  unfolding char_of
  value_of-char_of n h = ground (
    arith,
    value_of-upper n,
    value_of-lower (n - 26),
    value_of-digit (n - 52),
    sound.at62,
    sound.at63,
  )

  -- No character of the alphabet is one that has no value.
  char_of-ne : (n k : ℕ) → n < 64 → value_of a k ≡ none → (char_of a n == k) ≡ false
  char_of-ne n k h none_at = elim (Bool-cases (char_of a n == k)) [
    | inr e ↦ e
    | inl e ↦
        let same : char_of a n ≡ k = (==_iff (char_of a n) k).0 e in
        absurd (cc (value_of-char_of n h, none_at, same))
  ]

  decode_one : (x : ℕ) → x < 256 → decode_groups a (encode a (x ∷ [])) ≡ some (x ∷ [])
  unfolding encode decode_groups
  decode_one x h =
      let v1 = value_of-char_of (x / 4) (omega arith) in
      let v2 = value_of-char_of (x % 4 * 16) (omega arith) in
      elim (Bool-cases a.padded) [
        | inl e ↦ rw (e, v1, v2) (ground arith)
        | inr e ↦ rw (e, v1, v2) (ground arith)
      ]

  decode_two :
      (x y : ℕ) → x < 256 → y < 256 → decode_groups a (encode a (x ∷ y ∷ [])) ≡ some (x ∷ y ∷ [])
  unfolding encode decode_groups
  decode_two x y h k =
      let v1 = value_of-char_of (x / 4) (omega arith) in
      let v2 = value_of-char_of (x % 4 * 16 + y / 16) (omega arith) in
      let v3 = value_of-char_of (y % 16 * 4) (omega arith) in
      let ne = char_of-ne (y % 16 * 4) b'=' (omega arith) sound.no_pad in
      elim (Bool-cases a.padded) [
        | inl e ↦ rw (e, ne, v1, v2, v3) (ground arith)
        | inr e ↦ rw (e, v1, v2, v3) (ground arith)
      ]

  three_values :
      (x y z : ℕ) (rest : Option Bytes) (s : Bytes)
      → x < 256
      → y < 256
      → z < 256
      → rest ≡ some s
      → three_of a
          (value_of a (char_of a (x / 4)))
          (value_of a (char_of a (x % 4 * 16 + y / 16)))
          (value_of a (char_of a (y % 16 * 4 + z / 64)))
          (value_of a (char_of a (z % 64)))
          rest
        ≡ some (x ∷ y ∷ z ∷ s)
  three_values x y z rest s h k l e =
      let v1 = value_of-char_of (x / 4) (omega arith) in
      let v2 = value_of-char_of (x % 4 * 16 + y / 16) (omega arith) in
      let v3 = value_of-char_of (y % 16 * 4 + z / 64) (omega arith) in
      let v4 = value_of-char_of (z % 64) (omega arith) in rw (e, v1, v2, v3, v4) (ground arith)

  decode_step :
      (p q r t : ℕ) (u s : Bytes)
      → decode_groups a u ≡ some s
      → (u ≡ [] → (t == b'=') ≡ false)
      → decode_groups a (p ∷ q ∷ r ∷ t ∷ u)
        ≡ three_of a (value_of a p) (value_of a q) (value_of a r) (value_of a t) (some s)
  unfolding decode_groups
  decode_step p q r t [] s e ne = elim (Bool-cases a.padded) [
    | inl k ↦ rw (k, ne refl, ← e) refl
    | inr k ↦ rw (k, ← e) refl
  ]
  decode_step p q r t (c ∷ u) s e ne = rw e refl

  pub decode_groups-encode : (s : Bytes) → All IsByte s → decode_groups a (encode a s) ≡ some s
  unfolding encode decode_groups
  decode_groups-encode [] h = refl
  decode_groups-encode (x ∷ []) (h, k) = decode_one x h
  decode_groups-encode (x ∷ y ∷ []) (h, (k, l)) = decode_two x y h k
  decode_groups-encode (x ∷ y ∷ z ∷ s) (h, (k, (l, m))) =
      let later = decode_groups-encode s m in
      let step =
        decode_step (char_of a (x / 4)) (char_of a (x % 4 * 16 + y / 16))
          (char_of a (y % 16 * 4 + z / 64)) (char_of a (z % 64)) (encode a s) s later
          (λ _. char_of-ne (z % 64) b'=' (omega arith) sound.no_pad) in
      step ∙ three_values x y z (some s) s h k l refl

  abbrev IsKept : ℕ → Type 0
  IsKept c = (c == b'\n' || c == b'\r') ≡ false

  without_newlines-All : (s : Bytes) → All IsKept s → without_newlines s ≡ s
  unfolding without_newlines
  without_newlines-All [] h = refl
  without_newlines-All (c ∷ s) (h, k) = rw (without_newlines-All s k, h) refl

  char_of-IsKept : (n : ℕ) → n < 64 → IsKept (char_of a n)
  char_of-IsKept n h = rw (char_of-ne n b'\n' h sound.no_lf, char_of-ne n b'\r' h sound.no_cr) refl

  fill-IsKept : (pad : Bytes) → All IsKept pad → All IsKept (fill a pad)
  fill-IsKept pad h = elim (Bool-cases a.padded) [ inl e ↦ rw e h | inr e ↦ rw e tt ]

  encode-IsKept : (s : Bytes) → All IsByte s → All IsKept (encode a s)
  unfolding encode
  encode-IsKept [] h = tt
  encode-IsKept (x ∷ []) (h, k) = (
    char_of-IsKept (x / 4) (omega arith),
    (char_of-IsKept (x % 4 * 16) (omega arith), fill-IsKept (b'=' ∷ b'=' ∷ []) (refl, (refl, tt))),
  )
  encode-IsKept (x ∷ y ∷ []) (h, (k, l)) = (
    char_of-IsKept (x / 4) (omega arith),
    (
      char_of-IsKept (x % 4 * 16 + y / 16) (omega arith),
      (char_of-IsKept (y % 16 * 4) (omega arith), fill-IsKept (b'=' ∷ []) (refl, tt)),
    ),
  )
  encode-IsKept (x ∷ y ∷ z ∷ s) (h, (k, (l, m))) = (
    char_of-IsKept (x / 4) (omega arith),
    (
      char_of-IsKept (x % 4 * 16 + y / 16) (omega arith),
      (
        char_of-IsKept (y % 16 * 4 + z / 64) (omega arith),
        (char_of-IsKept (z % 64) (omega arith), encode-IsKept s m),
      ),
    ),
  )

  -- What is encoded is decoded again.
  pub decode-encode : (s : Bytes) → All IsByte s → decode a (encode a s) ≡ some s
  unfolding decode
  decode-encode s h =
      ap (decode_groups a) (without_newlines-All (encode a s) (encode-IsKept s h))
      ∙ decode_groups-encode s h
