-- ===== src/Prelude/Text.antt =====
-- Go strings as lists of bytes, with what the code uses of package strings.
use Prim.Native.Char.{code}
use Prim.Native.String.{String}
use mathlib.Core.Path.{◌≡◌, refl}
use mathlib.Core.Logic.{◌↔◌}
use mathlib.Core.Bool.{Bool, true, false, ◌&&◌, ◌||◌}
use mathlib.Core.Option.{Option, none, some}
use mathlib.Core.List.{List, [], ◌∷◌}
use Prim.Native.Nat.{ℕ}
use native.Mathlib.Omega.{arith}
use packages_go.Prelude.Tests.{leb, ◌==◌, if◌then◌else◌}

abbrev pub Bytes : Type 0
Bytes = List ℕ

-- The bytes of an ASCII literal.
abbrev pub codes : String → Bytes
codes String.[] = []
codes (String.◌∷◌ c s) = code c ∷ codes s

-- left == right on strings
unfoldable pub bytes_eq : Bytes → Bytes → Bool
bytes_eq [] [] = true
bytes_eq (x ∷ a) (y ∷ b) = (x == y) && bytes_eq a b
bytes_eq _ _ = false

pub bytes_eq_iff : (a b : Bytes) → (bytes_eq a b ≡ true) ↔ (a ≡ b)
unfolding bytes_eq
bytes_eq_iff (x ∷ a) (y ∷ b) = ground (arith, bytes_eq_iff a b)
bytes_eq_iff _ _ = ground arith

pub bytes_eq_refl : (a : Bytes) → bytes_eq a a ≡ true
bytes_eq_refl a = (bytes_eq_iff a a).1 refl

-- value == ""
abbrev pub is_empty {ℓ} : {A : Type ℓ} → List A → Bool
is_empty [] = true
is_empty (x ∷ xs) = false

-- strings.HasPrefix(s, prefix)
unfoldable pub has_prefix : Bytes → Bytes → Bool
has_prefix s [] = true
has_prefix [] (p ∷ ps) = false
has_prefix (c ∷ s) (p ∷ ps) = (c == p) && has_prefix s ps

-- strings.Contains(s, part)
unfoldable pub contains : Bytes → Bytes → Bool
unfolding has_prefix
contains [] part = is_empty part
contains (c ∷ s) part = has_prefix (c ∷ s) part || contains s part

-- strings.IndexByte(s, b) >= 0
unfoldable pub contains_byte : ℕ → Bytes → Bool
contains_byte b [] = false
contains_byte b (c ∷ s) = (c == b) || contains_byte b s

-- strings.ContainsAny(s, chars), for ASCII chars
unfoldable pub contains_any : Bytes → Bytes → Bool
unfolding contains_byte
contains_any chars [] = false
contains_any chars (c ∷ s) = contains_byte c chars || contains_any chars s

-- How much of a multi-byte white-space rune has been read.
pub data SpaceState : Type 0 where
  start c2 e1 e1_9a e2 e2_80 e2_81 e3 e3_80 : SpaceState

-- One byte of unicode.IsSpace over UTF-8: the ASCII spaces, U+0085, U+00A0, U+1680,
-- U+2000 to U+200A, U+2028, U+2029, U+202F, U+205F and U+3000.
unfoldable pub space_next : SpaceState → ℕ → Option SpaceState
space_next start c =
    if (leb 9 c && leb c 13) || c == 32
    then some start
    else if c == 0xc2
    then some c2
    else if c == 0xe1
    then some e1
    else if c == 0xe2
    then some e2
    else if c == 0xe3
    then some e3
    else none
space_next c2 c = if c == 0x85 || c == 0xa0 then some start else none
space_next e1 c = if c == 0x9a then some e1_9a else none
space_next e1_9a c = if c == 0x80 then some start else none
space_next e2 c = if c == 0x80 then some e2_80 else if c == 0x81 then some e2_81 else none
space_next e2_80 c =
    if (leb 0x80 c && leb c 0x8a) || (c == 0xa8 || (c == 0xa9 || c == 0xaf))
    then some start
    else none
space_next e2_81 c = if c == 0x9f then some start else none
space_next e3 c = if c == 0x80 then some e3_80 else none
space_next e3_80 c = if c == 0x80 then some start else none

is_start : SpaceState → Bool
is_start start = true
is_start _ = false

unfoldable pub blank_from : SpaceState → Bytes → Bool
unfolding is_start space_next
blank_from st [] = is_start st
blank_from st (c ∷ s) = elim (space_next st c) [ none ↦ false | some st' ↦ blank_from st' s ]

-- strings.TrimSpace(s) == ""
unfoldable pub is_blank : Bytes → Bool
unfolding blank_from
is_blank s = blank_from start s
