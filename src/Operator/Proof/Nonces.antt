-- ===== src/Operator/Proof/Nonces.antt =====
-- ValidNonce of foundryoperator/foundryoperator.go, and the nonces of RandomNonce.
use packages_go.Prelude.{
  ℕ, zero, suc, ◌+◌, ◌*◌, ◌/◌, ◌%◌, ◌≤◌, ◌<◌, ◌≡◌, refl, ◌↔◌, Bool, true, ◌&&◌, [], ◌∷◌, some,
  Bytes, length, is_empty, contains_byte, All, leb, Bool-cases, inl, inr, List, ==_iff, ◌==◌,
  and_split, leb→le, arith,
}
use packages_go.Encoding.Base64.{char_of, encode, raw_url}
use packages_go.Encoding.Base64.RoundTrip.{IsByte}
use packages_go.Operator.Proof.{
  nonce_charset, trim_left, trim_right, trim, valid_nonce, random_nonce,
}

abbrev pub InCharset : Bytes → Type 0
InCharset s = All (λ c. contains_byte c nonce_charset ≡ true) s

-- A nonce of the length and alphabet that the protocol asks for.
pub record IsNonce (nonce : Bytes) : Type 0 where
  pub long : 22 ≤ length nonce
  pub short : length nonce ≤ 128
  pub spelled : InCharset nonce

module _ (cutset : Bytes) where
  trim_left-All : (s : Bytes) → All (λ c. contains_byte c cutset ≡ true) s → trim_left cutset s ≡ []
  unfolding trim_left
  trim_left-All [] h = refl
  trim_left-All (c ∷ s) (h, k) = rw (h, trim_left-All s k) refl

  trim_right-eq-nil :
      (s : Bytes) → trim_right cutset s ≡ [] → All (λ c. contains_byte c cutset ≡ true) s
  unfolding trim_right
  trim_right-eq-nil [] h = tt
  trim_right-eq-nil (c ∷ s) h =
      elim (Bool-cases (is_empty (trim_right cutset s) && contains_byte c cutset)) [
        | inl e ↦
            let (empty, k) =
              and_split (is_empty (trim_right cutset s)) (contains_byte c cutset) e in
            (k, trim_right-eq-nil s (ground arith))
        | inr e ↦ absurd (cc (h, e))
      ]

  trim_right-trim_left :
      (s : Bytes)
      → trim_right cutset (trim_left cutset s) ≡ []
      → All (λ c. contains_byte c cutset ≡ true) s
  unfolding trim_left
  trim_right-trim_left [] h = tt
  trim_right-trim_left (c ∷ s) h = elim (Bool-cases (contains_byte c cutset)) [
    | inl e ↦ (e, trim_right-trim_left s (rw e at h))
    | inr e ↦ trim_right-eq-nil (c ∷ s) (rw e at h)
  ]

is_empty-eq : {A : Type 0} (xs : List A) → is_empty xs ≡ true → xs ≡ []
is_empty-eq [] h = refl
is_empty-eq (x ∷ xs) h = cc

valid_nonce-IsNonce : (nonce : Bytes) → valid_nonce nonce ≡ true → IsNonce nonce
unfolding valid_nonce
valid_nonce-IsNonce nonce h =
    let (long, h') =
      and_split (leb 22 (length nonce))
        (leb (length nonce) 128 && is_empty (trim nonce_charset nonce)) h in
    let (short, trimmed) =
      and_split (leb (length nonce) 128) (is_empty (trim nonce_charset nonce)) h' in
    record {
      long = leb→le 22 (length nonce) long;
      short = leb→le (length nonce) 128 short;
      spelled =
          trim_right-trim_left nonce_charset nonce (is_empty-eq (trim nonce_charset nonce) trimmed);
    }

IsNonce-valid_nonce : (nonce : Bytes) → IsNonce nonce → valid_nonce nonce ≡ true
unfolding valid_nonce trim_right
IsNonce-valid_nonce nonce h =
    let long : leb 22 (length nonce) ≡ true = ground (arith, h.long) in
    let short : leb (length nonce) 128 ≡ true = ground (arith, h.short) in
    rw (long, short, trim_left-All nonce_charset nonce h.spelled) refl

-- ValidNonce, which trims the alphabet off both ends and looks whether anything is left, accepts
-- exactly the strings of 22 to 128 characters that are all of the alphabet.
pub valid_nonce_iff : (nonce : Bytes) → (valid_nonce nonce ≡ true) ↔ IsNonce nonce
valid_nonce_iff nonce = (valid_nonce-IsNonce nonce, IsNonce-valid_nonce nonce)

-- The alphabet of RawURLEncoding is that of nonces.
all_below : ℕ → (ℕ → Bool) → Bool
all_below zero f = true
all_below (suc n) f = f n && all_below n f

all_below_sound : (n k : ℕ) (f : ℕ → Bool) → all_below n f ≡ true → k < n → f k ≡ true
unfolding all_below
all_below_sound zero k f h l = elim l [ ]
all_below_sound (suc n) k f h l =
    let (first, rest) = and_split (f n) (all_below n f) h in
    elim (Bool-cases (k == n)) [
      | inl e ↦ let same : k ≡ n = (==_iff k n).0 e in rw same first
      | inr e ↦ all_below_sound n k f rest (ground arith)
    ]

all_in_charset : all_below 64 (λ n. contains_byte (char_of raw_url n) nonce_charset) ≡ true
unfolding all_below contains_byte char_of
all_in_charset = refl

char_of-InCharset : (n : ℕ) → n < 64 → contains_byte (char_of raw_url n) nonce_charset ≡ true
char_of-InCharset n h =
    all_below_sound 64 n (λ n. contains_byte (char_of raw_url n) nonce_charset) all_in_charset h

encode-InCharset : (s : Bytes) → All IsByte s → InCharset (encode raw_url s)
unfolding encode
encode-InCharset [] h = tt
encode-InCharset (x ∷ []) (h, k) =
    (char_of-InCharset (x / 4) (omega arith), (char_of-InCharset (x % 4 * 16) (omega arith), tt))
encode-InCharset (x ∷ y ∷ []) (h, (k, l)) = (
  char_of-InCharset (x / 4) (omega arith),
  (
    char_of-InCharset (x % 4 * 16 + y / 16) (omega arith),
    (char_of-InCharset (y % 16 * 4) (omega arith), tt),
  ),
)
encode-InCharset (x ∷ y ∷ z ∷ s) (h, (k, (l, m))) = (
  char_of-InCharset (x / 4) (omega arith),
  (
    char_of-InCharset (x % 4 * 16 + y / 16) (omega arith),
    (
      char_of-InCharset (y % 16 * 4 + z / 64) (omega arith),
      (char_of-InCharset (z % 64) (omega arith), encode-InCharset s m),
    ),
  ),
)

length-encode : (s : Bytes) → length s % 3 ≡ 0 → length (encode raw_url s) * 3 ≡ length s * 4
unfolding encode
length-encode [] h = refl
length-encode (x ∷ []) h = absurd (ground arith)
length-encode (x ∷ y ∷ []) h = absurd (ground arith)
length-encode (x ∷ y ∷ z ∷ s) h = omega (arith, length-encode s (omega arith))

-- Whatever 24 bytes rand.Read fills in, the nonce that RandomNonce makes of them is valid.
pub random_nonce-valid_nonce :
    (raw : Bytes)
    → All IsByte raw
    → length raw ≡ 24
    → (nonce : Bytes) × (random_nonce (some raw) ≡ some nonce) × (valid_nonce nonce ≡ true)
unfolding random_nonce
random_nonce-valid_nonce raw bytes size =
    let measured = length-encode raw (omega (arith, size)) in
    let made : IsNonce (encode raw_url raw) = record {
      long = omega (arith, measured, size);
      short = omega (arith, measured, size);
      spelled = encode-InCharset raw bytes;
    } in
    (encode raw_url raw, refl, IsNonce-valid_nonce (encode raw_url raw) made)
