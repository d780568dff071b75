-- ===== src/Operator/Canonical.antt =====
-- appendJSONString and appendCanonical of foundryoperator/foundryoperator.go. Strings are the bytes
-- of their UTF-8: what json.Decoder returns is valid UTF-8, where writing the rune that `range` has
-- read copies its bytes. A buffer is what is written in front of `rest`.
pub mod Strings
pub mod Flat
use packages_go.Prelude.{
  ℕ, suc, ◌+◌, ◌-◌, ◌*◌, ◌/◌, ◌%◌, ◌^◌, ◌<◌, ◌≡◌, refl, Bool, true, false, not, ◌&&◌, ◌||◌, List,
  [], ◌∷◌, ◌++◌, Option, none, some, Bytes, codes, ltb, leb, ◌==◌, if◌then◌else◌, arith, ℤ, pos,
  negsuc, decimal_ℤ, parse_int, leb_ℤ, ltb_ℤ, bytes_eq, is_empty,
}
use mathlib.Core.Option
use packages_go.Encoding.Hex.{hex_digit}
use packages_go.Sorting.{sort}

unfoldable pub escaped : ℕ → Bytes → Bytes
unfolding hex_digit
escaped c rest =
    if c == b'"' || c == b'\\'
    then b'\\' ∷ c ∷ rest
    else if c == 8
    then b'\\' ∷ b'b' ∷ rest
    else if c == 12
    then b'\\' ∷ b'f' ∷ rest
    else if c == b'\n'
    then b'\\' ∷ b'n' ∷ rest
    else if c == b'\r'
    then b'\\' ∷ b'r' ∷ rest
    else if c == b'\t'
    then b'\\' ∷ b't' ∷ rest
    else if ltb c 0x20
    then b'\\' ∷ b'u' ∷ b'0' ∷ b'0' ∷ hex_digit (c / 16) ∷ hex_digit (c % 16) ∷ rest
    else c ∷ rest

unfoldable pub escaped_all : Bytes → Bytes → Bytes
unfolding escaped
escaped_all [] rest = b'"' ∷ rest
escaped_all (c ∷ s) rest = escaped c (escaped_all s rest)

unfoldable pub append_json_string : Bytes → Bytes → Bytes
unfolding escaped_all
append_json_string value rest = b'"' ∷ escaped_all value rest

-- What json.Decoder decodes into with UseNumber: a number keeps its text.
mutual
  pub data Value : Type 0 where
    null : Value
    boolean : Bool → Value
    string : Bytes → Value
    number : Bytes → Value
    array : Items → Value
    object : Fields → Value

  pub data Items : Type 0 where
    no_items : Items
    item : Value → Items → Items

  -- a map, in the order in which a range over it happens to go
  pub data Fields : Type 0 where
    no_fields : Fields
    field : Bytes → Value → Fields → Fields

abbrev pub max_safe_integer : ℕ
max_safe_integer = 2 ^ 53 - 1

abbrev in_safe_range : ℤ → Bool
in_safe_range (pos n) = leb n max_safe_integer
in_safe_range (negsuc n) = ltb n max_safe_integer

unfoldable pub is_safe_number : Bytes → Bool
is_safe_number text = elim (parse_int text) [
  | none ↦ false
  | some integer ↦ in_safe_range integer && bytes_eq (decimal_ℤ integer) text
]

-- One key of a map and the text of its value.
pub record Member : Type 0 where
  pub key : Bytes
  pub text : Bytes

unfoldable pub append_member : Member → Bytes → Bytes
unfolding append_json_string
append_member m rest = append_json_string m.key (b':' ∷ (m.text ++ rest))

-- The members after the first, each after a comma.
unfoldable pub append_members : List Member → Bytes → Bytes
unfolding append_member
append_members [] rest = rest
append_members (m ∷ ms) rest = b',' ∷ append_member m (append_members ms rest)

unfoldable pub object_text : List Member → Bytes
unfolding append_members append_member
object_text [] = b'{' ∷ b'}' ∷ []
object_text (m ∷ ms) = b'{' ∷ append_member m (append_members ms (b'}' ∷ []))

unfoldable pub item_texts : List Bytes → Bytes
item_texts [] = b']' ∷ []
item_texts (t ∷ ts) = b',' ∷ (t ++ item_texts ts)

unfoldable pub array_text : List Bytes → Bytes
unfolding item_texts
array_text [] = b'[' ∷ b']' ∷ []
array_text (t ∷ ts) = b'[' ∷ (t ++ item_texts ts)

abbrev add_item : Option Bytes → Option (List Bytes) → Option (List Bytes)
add_item (some t) (some ts) = some (t ∷ ts)
add_item _ _ = none

abbrev add_member : Bytes → Option Bytes → Option (List Member) → Option (List Member)
add_member key (some t) (some ms) = some (record { key = key; text = t } ∷ ms)
add_member _ _ _ = none

-- The text that is written, `none` for the error. Every error of a decoded value is that of an
-- unsafe number, so the order of the members, which only decides where it is met, does not matter.
unfoldable mutual
  unfolding append_json_string is_safe_number array_text object_text sort

  pub append_canonical : Value → Option Bytes
  append_canonical null = some (codes "null")
  append_canonical (boolean b) = some (if b then codes "true" else codes "false")
  append_canonical (string s) = some (append_json_string s [])
  append_canonical (number text) = if is_safe_number text then some text else none
  append_canonical (array items) = Option.map array_text (canonical_items items)
  append_canonical (object fields) =
      Option.map (λ ms. object_text (sort (λ m. m.key) ms)) (canonical_fields fields)

  pub canonical_items : Items → Option (List Bytes)
  canonical_items no_items = some []
  canonical_items (item v vs) = add_item (append_canonical v) (canonical_items vs)

  pub canonical_fields : Fields → Option (List Member)
  canonical_fields no_fields = some []
  canonical_fields (field k v fs) = add_member k (append_canonical v) (canonical_fields fs)
