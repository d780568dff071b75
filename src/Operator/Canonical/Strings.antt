-- ===== src/Operator/Canonical/Strings.antt =====
-- A reader of JSON strings gets back what appendJSONString of foundryoperator/foundryoperator.go
-- wrote.
use packages_go.Prelude.{
  ℕ, zero, suc, ◌+◌, ◌*◌, ◌/◌, ◌%◌, ◌<◌, ◌≡◌, refl, ◌∙◌, ap, Bool, true, false, ◌||◌, [], ◌∷◌,
  Option, none, some, Bytes, ltb, ◌==◌, if◌then◌else◌, ==_iff, neither, arith,
}
use packages_go.Encoding.Hex.{hex_digit, hex_value, hex_value-hex_digit}
use packages_go.Operator.Canonical.{escaped, escaped_all, append_json_string}

-- Where a reader is in a string: between characters, after a backslash, or in the four digits of an
-- escape, with the number still to come less one and the value so far.
pub data Place : Type 0 where
  between slash : Place
  digits : ℕ → ℕ → Place

-- The byte that a backslash and this character stand for; not 'u', which digits follow.
unfoldable pub escape_of : ℕ → Option ℕ
escape_of c =
    if c == b'"' || (c == b'\\' || c == b'/')
    then some c
    else if c == b'b'
    then some 8
    else if c == b'f'
    then some 12
    else if c == b'n'
    then some b'\n'
    else if c == b'r'
    then some b'\r'
    else if c == b't'
    then some b'\t'
    else none

abbrev pub push : ℕ → Option (Bytes × Bytes) → Option (Bytes × Bytes)
push c none = none
push c (some (s, rest)) = some (c ∷ s, rest)

-- The characters up to the closing quote, and what follows it. An escape of four digits is read
-- when it stands for one byte; control characters must be escaped.
unfoldable pub read_chars : Place → Bytes → Option (Bytes × Bytes)
unfolding escape_of hex_value
read_chars place [] = none
read_chars between (c ∷ s) = elim (c == b'"') [
  | true ↦ some ([], s)
  | false ↦ elim (c == b'\\') [
    | true ↦ read_chars slash s
    | false ↦ if ltb c 0x20 then none else push c (read_chars between s)
  ]
]
read_chars slash (c ∷ s) = elim (escape_of c) [
  | some d ↦ push d (read_chars between s)
  | none ↦ if c == b'u' then read_chars (digits 3 0) s else none
]
read_chars (digits left value) (c ∷ s) = elim (hex_value c) [
  | none ↦ none
  | some d ↦ elim left [
    | zero ↦
        if ltb (value * 16 + d) 0x80 then push (value * 16 + d) (read_chars between s) else none
    | suc more ↦ read_chars (digits more (value * 16 + d)) s
  ]
]

unfoldable pub read_string : Bytes → Option (Bytes × Bytes)
unfolding read_chars
read_string [] = none
read_string (c ∷ s) = if c == b'"' then read_chars between s else none

read_chars-quote : (rest : Bytes) → read_chars between (b'"' ∷ rest) ≡ some ([], rest)
unfolding read_chars
read_chars-quote rest = refl

read_chars-short :
    (c d : ℕ) (rest : Bytes)
    → escape_of d ≡ some c
    → read_chars between (b'\\' ∷ d ∷ rest) ≡ push c (read_chars between rest)
unfolding read_chars
read_chars-short c d rest h = rw (read_chars, h) refl

read_chars-control :
    (c : ℕ) (rest : Bytes)
    → c < 0x20
    → read_chars between
        (b'\\' ∷ b'u' ∷ b'0' ∷ b'0' ∷ hex_digit (c / 16) ∷ hex_digit (c % 16) ∷ rest)
      ≡ push c (read_chars between rest)
unfolding read_chars
read_chars-control c rest h =
    let high = hex_value-hex_digit (c / 16) (omega arith) in
    let low = hex_value-hex_digit (c % 16) (omega arith) in rw (high, low) (ground arith)

read_chars-plain :
    (c : ℕ) (rest : Bytes)
    → (c == b'"') ≡ false
    → (c == b'\\') ≡ false
    → ltb c 0x20 ≡ false
    → read_chars between (c ∷ rest) ≡ push c (read_chars between rest)
unfolding read_chars
read_chars-plain c rest q b h = rw (read_chars, q, b, h) refl

read_chars-special :
    (c k d : ℕ) (rest : Bytes)
    → (c == k) ≡ true
    → escape_of d ≡ some k
    → read_chars between (b'\\' ∷ d ∷ rest) ≡ push c (read_chars between rest)
read_chars-special c k d rest e h =
    let same : c ≡ k = (==_iff c k).0 e in rw same (read_chars-short k d rest h)

-- A property of a conditional's two results.
split_if :
    (P : Bytes → Type 0) (t : Bool) {x y : Bytes}
    → (t ≡ true → P x)
    → (t ≡ false → P y)
    → P (if t then x else y)
split_if P true h k = h refl
split_if P false h k = k refl

-- Whatever the character, its escape is read as that character.
read_chars-escaped :
    (c : ℕ) (rest : Bytes) → read_chars between (escaped c rest) ≡ push c (read_chars between rest)
unfolding escaped escape_of
read_chars-escaped c rest =
    let reads : Bytes → Type 0 = λ s. read_chars between s ≡ push c (read_chars between rest) in
    let special = read_chars-special c in
    split_if reads (c == b'"' || c == b'\\') (λ e. read_chars-short c c rest (ground arith))
      λ n.
        split_if reads (c == 8) (λ e. special 8 b'b' rest e refl)
          λ _.
            split_if reads (c == 12) (λ e. special 12 b'f' rest e refl)
              λ _.
                split_if reads (c == b'\n') (λ e. special b'\n' b'n' rest e refl)
                  λ _.
                    split_if reads (c == b'\r') (λ e. special b'\r' b'r' rest e refl)
                      λ _.
                        split_if reads (c == b'\t') (λ e. special b'\t' b't' rest e refl)
                          λ _.
                            split_if reads (ltb c 0x20)
                              (λ e. read_chars-control c rest (ground arith))
                              λ h.
                                let (q, b) = neither (c == b'"') (c == b'\\') n in
                                read_chars-plain c rest q b h

read_chars-escaped_all : (s rest : Bytes) → read_chars between (escaped_all s rest) ≡ some (s, rest)
unfolding escaped_all
read_chars-escaped_all [] rest = read_chars-quote rest
read_chars-escaped_all (c ∷ s) rest =
    read_chars-escaped c (escaped_all s rest) ∙ ap (push c) (read_chars-escaped_all s rest)

-- Whatever the string and whatever follows it in the buffer, a reader of JSON strings gets from
-- what appendJSONString wrote exactly that string, and is left with what follows.
pub read_string-append_json_string :
    (value rest : Bytes) → read_string (append_json_string value rest) ≡ some (value, rest)
unfolding read_string append_json_string
read_string-append_json_string = read_chars-escaped_all
