-- ===== src/Operator/Tests.antt =====
-- Concrete runs of foundryoperator/, and the theorems at concrete inputs.
use packages_go.Prelude.{
  ℕ, ◌≡◌, refl, true, [], ◌∷◌, Option, none, some, Bytes, codes, All, arith, contains_byte, zero,
  suc, ◌*◌, ◌%◌, parse_int, parse_uint, digits_value, decimal_ℤ, decimal, digits_onto, bytes_eq,
}
use packages_go.Encoding.Base64.RoundTrip.{IsByte}
use packages_go.Encoding.Hex.{hex_digit}
use packages_go.Sorting.{before, insert, sort}
use packages_go.Operator.Canonical.{
  escaped, escaped_all, append_json_string, append_canonical, append_member, append_members,
  object_text, array_text, item_texts, is_safe_number, Value, null, boolean, number, array, object,
  no_items, item, no_fields, field,
}
use packages_go.Operator.Canonical.Strings.{read_string, read_string-append_json_string}
use packages_go.Operator.Proof.{
  Primitives, Outcome, second, ok, err, sign, nonce_of, random_nonce, valid_nonce, trim_left,
  trim_right, matches_kid, all_kid_chars, proof_of, kid_invalid, key_invalid, nonce_unavailable,
}
use packages_go.Operator.Proof.Nonces.{random_nonce-valid_nonce, valid_nonce_iff}
use packages_go.Operator.Proof.Reads.{IsSigned}
use packages_go.Operator.Proof.Signed.{IsAcceptable, sign-IsAcceptable, sign-IsSigned}

escapes_test :
    append_json_string (b'a' ∷ b'"' ∷ b'\n' ∷ 1 ∷ 31 ∷ []) [] ≡ codes "\"a\\\"\\n\\u0001\\u001f\""
unfolding append_json_string escaped_all escaped hex_digit
escapes_test = refl

read_string-append_json_string_example :
    read_string (append_json_string (b'\\' ∷ 7 ∷ []) (codes ",x"))
    ≡ some (b'\\' ∷ 7 ∷ [], codes ",x")
read_string-append_json_string_example =
    read_string-append_json_string (b'\\' ∷ 7 ∷ []) (codes ",x")

nested : Value
nested = object (
    field (codes "b") (array (item (number (codes "-12")) (item null no_items)))
      (field (codes "a") (boolean true) no_fields))

nested_test : append_canonical nested ≡ some (codes "{\"a\":true,\"b\":[-12,null]}")
unfolding append_canonical nested sort insert before object_text append_members append_member
    append_json_string escaped_all escaped array_text item_texts is_safe_number parse_int parse_uint
    digits_value decimal_ℤ decimal digits_onto bytes_eq
nested_test = refl

-- 2^53 is not safe, and neither is a number in another spelling.
unsafe_test :
    (append_canonical (number (codes "9007199254740992")) ≡ none)
    × (append_canonical (number (codes "1e3")) ≡ none)
    × (append_canonical (number (codes "9007199254740991")) ≡ some (codes "9007199254740991"))
unfolding append_canonical is_safe_number parse_int parse_uint digits_value decimal_ℤ decimal
    digits_onto bytes_eq
unsafe_test = (refl, refl, refl)

zeros : ℕ → Bytes
zeros zero = []
zeros (suc n) = 0 ∷ zeros n

random_nonce_test :
    (nonce : Bytes) × (random_nonce (some (zeros 24)) ≡ some nonce) × (valid_nonce nonce ≡ true)
unfolding zeros
random_nonce_test = random_nonce-valid_nonce (zeros 24) (omega arith) refl

-- Every byte of a text cut to eight bits.
cut : Bytes → Bytes
cut [] = []
cut (c ∷ s) = c % 256 ∷ cut s

cut-IsByte : (s : Bytes) → All IsByte (cut s)
unfolding cut
cut-IsByte [] = tt
cut-IsByte (c ∷ s) = (omega arith, cut-IsByte s)

test_prims : Primitives
test_prims = record {
  sha256 = λ _. zeros 32;
  ed25519_sign = λ k text. cut text;
  format_time = λ t. codes "t";
  to_valid = cut;
}

signed_test : Bytes → Bytes → Option (Option Bytes) → Outcome (Bytes × Bytes)
signed_test key kid nonce =
    sign test_prims key kid (codes "POST") (codes "/mcp/token") [] (codes "{}") (10 * second) nonce
      (some (zeros 24))

refusals_test :
    (signed_test (zeros 64) (codes "-kid") none ≡ err kid_invalid)
    × (signed_test (zeros 63) (codes "kid:1") none ≡ err key_invalid)
    × (signed_test (zeros 64) (codes "kid:1") (some (some (codes "short"))) ≡ err nonce_unavailable)
unfolding signed_test sign matches_kid all_kid_chars nonce_of zeros valid_nonce trim_left trim_right
    contains_byte
refusals_test = (refl, refl, refl)

accepted : IsAcceptable (zeros 64) (codes "kid:1") (nonce_of none (some (zeros 24)))
unfolding zeros nonce_of matches_kid all_kid_chars contains_byte
accepted =
    let (nonce, made, valid) = random_nonce-valid_nonce (zeros 24) (omega arith) refl in
    record {
      kid_matches = refl;
      key_size = refl;
      nonce = nonce;
      nonce_given = made;
      nonce_good = (valid_nonce_iff nonce).0 valid;
    }

sign-IsSigned_example :
    (pair : Bytes × Bytes) × (sign test_prims
        (zeros 64)
        (codes "kid:1")
        (codes "POST")
        (codes "/mcp/token")
        []
        (codes "{}")
        (10 * second)
        none
        (some (zeros 24))
      ≡ ok pair)
    × IsSigned test_prims
        (zeros 64)
        (proof_of test_prims
          (codes "kid:1")
          accepted.nonce
          (codes "POST")
          (codes "/mcp/token")
          []
          (codes "{}")
          (10 * second))
        pair
unfolding test_prims
sign-IsSigned_example =
    sign-IsSigned test_prims (zeros 64) (codes "kid:1") (codes "POST") (codes "/mcp/token") []
      (codes "{}") (10 * second) none (some (zeros 24)) cut-IsByte (λ k text. cut-IsByte text)
      accepted

sign-IsAcceptable_example :
    IsAcceptable (zeros 64) (codes "kid:1") (nonce_of none (some (zeros 24)))
sign-IsAcceptable_example =
    sign-IsAcceptable test_prims (zeros 64) (codes "kid:1") (codes "POST") (codes "/mcp/token") []
      (codes "{}") (10 * second) none (some (zeros 24)) sign-IsSigned_example.0
      sign-IsSigned_example.1
