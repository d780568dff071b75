-- ===== src/Operator/Canonical/Flat.antt =====
-- A reader of JSON objects of strings gets back what appendCanonical of
-- foundryoperator/foundryoperator.go wrote for one.
use packages_go.Prelude.{
  ℕ, zero, suc, ◌+◌, ◌≤◌, ◌<◌, ◌≡◌, refl, ◌∙◌, ap, true, false, List, [], ◌∷◌, ◌++◌, map, Option,
  none, some, Bytes, length, ◌==◌, if◌then◌else◌, is_empty, arith,
}
use packages_go.Operator.Canonical.{
  escaped, escaped_all, append_json_string, Member, append_member, append_members, object_text,
}
use packages_go.Operator.Canonical.Strings.{read_string, read_string-append_json_string}

abbrev text_after_colon : Bytes → Option (Bytes × Bytes) → Option ((Bytes × Bytes) × Bytes)
text_after_colon key none = none
text_after_colon key (some (value, rest)) = some ((key, value), rest)

abbrev member_after_key : Option (Bytes × Bytes) → Option ((Bytes × Bytes) × Bytes)
member_after_key none = none
member_after_key (some (key, [])) = none
member_after_key (some (key, c ∷ s)) =
    if c == b':' then text_after_colon key (read_string s) else none

-- "key":"value"
unfoldable pub read_member : Bytes → Option ((Bytes × Bytes) × Bytes)
read_member s = member_after_key (read_string s)

abbrev pub add_read : Bytes × Bytes → Option (List (Bytes × Bytes)) → Option (List (Bytes × Bytes))
add_read m none = none
add_read m (some ms) = some (m ∷ ms)

-- What is left of an object after a member. Every round takes a byte at least.
unfoldable pub read_more : ℕ → Bytes → Option (List (Bytes × Bytes))
unfolding read_member
read_more zero s = none
read_more (suc fuel) [] = none
read_more (suc fuel) (c ∷ s) = elim (c == b'}') [
  | true ↦ if is_empty s then some [] else none
  | false ↦ elim (c == b',') [
    | false ↦ none
    | true ↦ elim (read_member s) [
      | none ↦ none
      | some (m, rest) ↦ add_read m (read_more fuel rest)
    ]
  ]
]

-- A whole text that is one object of strings with a member at least.
unfoldable pub read_flat : Bytes → Option (List (Bytes × Bytes))
unfolding read_more read_member
read_flat [] = none
read_flat (c ∷ s) =
    let members : Option (List (Bytes × Bytes)) = elim (read_member s) [
      | none ↦ none
      | some (m, rest) ↦ add_read m (read_more (length s) rest)
    ] in
    if c == b'{' then members else none

escaped-append : (c : ℕ) (rest tail : Bytes) → escaped c rest ++ tail ≡ escaped c (rest ++ tail)
unfolding escaped
escaped-append c rest tail = ground arith

escaped_all-append :
    (s rest tail : Bytes) → escaped_all s rest ++ tail ≡ escaped_all s (rest ++ tail)
unfolding escaped_all
escaped_all-append [] rest tail = refl
escaped_all-append (c ∷ s) rest tail =
    escaped-append c (escaped_all s rest) tail ∙ ap (escaped c) (escaped_all-append s rest tail)

append_json_string-append :
    (s rest : Bytes) → append_json_string s [] ++ rest ≡ append_json_string s rest
unfolding append_json_string
append_json_string-append s rest = ap (λ (t : Bytes). b'"' ∷ t) (escaped_all-append s [] rest)

-- A member whose value is a string.
abbrev pub text_member : Bytes × Bytes → Member
text_member m = record { key = m.0; text = append_json_string m.1 [] }

read_member-append_member :
    (m : Bytes × Bytes) (rest : Bytes)
    → read_member (append_member (text_member m) rest) ≡ some (m, rest)
unfolding read_member append_member
read_member-append_member (key, value) rest =
    rw
      (
        append_json_string-append value rest,
        read_string-append_json_string key,
        read_string-append_json_string value rest,
      )
      refl

length-escaped : (c : ℕ) (rest : Bytes) → length rest ≤ length (escaped c rest)
unfolding escaped
length-escaped c rest = ground arith

length-escaped_all : (s rest : Bytes) → length rest ≤ length (escaped_all s rest)
unfolding escaped_all
length-escaped_all [] rest = omega arith
length-escaped_all (c ∷ s) rest =
    omega (arith, length-escaped_all s rest, length-escaped c (escaped_all s rest))

length-append_member :
    (m : Bytes × Bytes) (rest : Bytes) → length rest < length (append_member (text_member m) rest)
unfolding append_member append_json_string
length-append_member (key, value) rest =
    let text : Bytes = append_json_string value [] ++ rest in
    let later = length-escaped_all key (b':' ∷ text) in
    let inner = length-escaped_all value rest in
    let size : length text ≡ length (append_json_string value rest) =
      ap length (append_json_string-append value rest) in
    omega (arith, later, inner, size)

length-append_members :
    (ms : List (Bytes × Bytes)) (rest : Bytes)
    → length ms + length rest ≤ length (append_members (map text_member ms) rest)
unfolding append_members
length-append_members [] rest = omega arith
length-append_members (m ∷ ms) rest =
    let later = length-append_members ms rest in
    let first = length-append_member m (append_members (map text_member ms) rest) in
    omega (arith, later, first)

read_more-append_members :
    (ms : List (Bytes × Bytes)) (fuel : ℕ)
    → length ms < fuel
    → read_more fuel (append_members (map text_member ms) (b'}' ∷ [])) ≡ some ms
unfolding read_more append_members
read_more-append_members [] (suc fuel) h = refl
read_more-append_members (m ∷ ms) (suc fuel) h =
    rw (read_more, read_member-append_member m (append_members (map text_member ms) (b'}' ∷ [])))
      (ap (add_read m) (read_more-append_members ms fuel (omega arith)))
read_more-append_members ms zero h = elim h [ ]

-- Whatever the members, at least one, all of strings: a reader of such objects gets from the text
-- that appendCanonical writes for them exactly these members, in that order.
pub read_flat-object_text :
    (m : Bytes × Bytes) (ms : List (Bytes × Bytes))
    → read_flat (object_text (map text_member (m ∷ ms))) ≡ some (m ∷ ms)
unfolding read_flat object_text
read_flat-object_text m ms =
    let tail : Bytes = append_members (map text_member ms) (b'}' ∷ []) in
    let bound = length-append_member m tail in
    let more = length-append_members ms (b'}' ∷ []) in
    rw (read_member-append_member m tail) (
      ap (add_read m) (
        read_more-append_members ms (length (append_member (text_member m) tail))
          (omega (arith, bound, more))))
