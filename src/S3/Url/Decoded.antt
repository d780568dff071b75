-- ===== src/S3/Url/Decoded.antt =====
-- The escaped path of a request of s3/s3.go, decoded again.
use packages_go.Prelude.{
  ℕ, ◌+◌, ◌*◌, ◌/◌, ◌%◌, ◌<◌, ◌≡◌, refl, sym, ◌∙◌, ap, true, false, List, [], ◌∷◌, ◌++◌, map, Bytes,
  ◌==◌, if◌then◌else◌, Option, none, some, Bool-cases, inl, inr, ==_iff, All, arith, append-nil,
}
use packages_go.Encoding.Hex.{hex_value}
use packages_go.Encoding.Base64.RoundTrip.{IsByte}
use packages_go.Slashes.{split_slash, join_slash}
use packages_go.Slashes.Pieces.{join_slash-split_slash, split_slash-All}
use packages_go.S3.Url.{
  is_unreserved, upper_hex, query_escape, replace_plus, rfc3986_escape, escape_path_segments,
}

abbrev pub push : ℕ → Option Bytes → Option Bytes
push c none = none
push c (some s) = some (c ∷ s)

abbrev pub push_hex : Option ℕ → Option ℕ → Option Bytes → Option Bytes
push_hex (some hi) (some lo) rest = push (hi * 16 + lo) rest
push_hex _ _ _ = none

-- A percent sign and two hexadecimal digits stand for a byte, any other byte for itself.
unfoldable pub unescape : Bytes → Option Bytes
unfolding hex_value
unescape [] = some []
unescape (c ∷ []) = if c == b'%' then none else some (c ∷ [])
unescape (c ∷ d ∷ []) = let rest = unescape (d ∷ []) in if c == b'%' then none else push c rest
unescape (c ∷ d ∷ e ∷ s) =
    let coded = push_hex (hex_value d) (hex_value e) (unescape s) in
    let plain = push c (unescape (d ∷ e ∷ s)) in if c == b'%' then coded else plain

unescape-plain : (c : ℕ) (s : Bytes) → (c == b'%') ≡ false → unescape (c ∷ s) ≡ push c (unescape s)
unfolding unescape
unescape-plain c [] h = rw h refl
unescape-plain c (d ∷ []) h = rw h refl
unescape-plain c (d ∷ e ∷ s) h = rw h refl

hex_value-upper_hex : (n : ℕ) → n < 16 → hex_value (upper_hex n) ≡ some n
unfolding hex_value upper_hex
hex_value-upper_hex n h = ground arith

unescape-coded :
    (c : ℕ) (s : Bytes)
    → c < 256
    → unescape (b'%' ∷ upper_hex (c / 16) ∷ upper_hex (c % 16) ∷ s) ≡ push c (unescape s)
unfolding unescape
unescape-coded c s h =
    let high = hex_value-upper_hex (c / 16) (omega arith) in
    let low = hex_value-upper_hex (c % 16) (omega arith) in
    let whole : c / 16 * 16 + c % 16 ≡ c = omega arith in
    rw (high, low) (ap (λ k. push k (unescape s)) whole)

upper_hex-no_plus : (n : ℕ) → n < 16 → (upper_hex n == b'+') ≡ false
unfolding upper_hex
upper_hex-no_plus n h = ground arith

is_unreserved-plain :
    (c : ℕ) → is_unreserved c ≡ true → ((c == b'+') ≡ false) × ((c == b'%') ≡ false)
is_unreserved-plain c h = ground arith

unescape-byte :
    (c : ℕ) (s t : Bytes)
    → c < 256
    → unescape (rfc3986_escape (c ∷ s) ++ t) ≡ push c (unescape (rfc3986_escape s ++ t))
unfolding rfc3986_escape query_escape replace_plus
unescape-byte c s t h = elim (Bool-cases (is_unreserved c)) [
  | inl e ↦
      let (plus, percent) = is_unreserved-plain c e in
      rw (e, plus) (unescape-plain c (replace_plus (query_escape s) ++ t) percent)
  | inr e ↦ elim (Bool-cases (c == b' ')) [
    | inl k ↦
        let space : c ≡ b' ' = (==_iff c b' ').0 k in
        rw (e, k)
          (rw space (unescape-coded b' ' (replace_plus (query_escape s) ++ t) (omega arith)))
    | inr k ↦
        let high = upper_hex-no_plus (c / 16) (omega arith) in
        let low = upper_hex-no_plus (c % 16) (omega arith) in
        rw (e, k, high, low) (unescape-coded c (replace_plus (query_escape s) ++ t) h)
  ]
]

abbrev pub push_all : Bytes → Option Bytes → Option Bytes
push_all [] rest = rest
push_all (c ∷ s) rest = push c (push_all s rest)

push_all-some : (s t : Bytes) → push_all s (some t) ≡ some (s ++ t)
push_all-some [] t = refl
push_all-some (c ∷ s) t = ap (push c) (push_all-some s t)

unescape-rfc3986_escape :
    (s t : Bytes) → All IsByte s → unescape (rfc3986_escape s ++ t) ≡ push_all s (unescape t)
unfolding rfc3986_escape query_escape replace_plus
unescape-rfc3986_escape [] t h = refl
unescape-rfc3986_escape (c ∷ s) t (h, k) =
    unescape-byte c s t h ∙ ap (push c) (unescape-rfc3986_escape s t k)

unescape-join_slash :
    (ps : List Bytes)
    → All (All IsByte) ps
    → unescape (join_slash (map rfc3986_escape ps)) ≡ some (join_slash ps)
unfolding join_slash unescape
unescape-join_slash [] h = refl
unescape-join_slash (p ∷ []) (h, k) =
    ap unescape (sym (append-nil (rfc3986_escape p)))
    ∙ unescape-rfc3986_escape p [] h
    ∙ push_all-some p []
    ∙ ap some (append-nil p)
unescape-join_slash (p ∷ q ∷ ps) (h, k) =
    unescape-rfc3986_escape p (b'/' ∷ join_slash (map rfc3986_escape (q ∷ ps))) h
    ∙ ap (push_all p) (
        unescape-plain b'/' (join_slash (map rfc3986_escape (q ∷ ps))) refl
        ∙ ap (push b'/') (unescape-join_slash (q ∷ ps) k))
    ∙ push_all-some p (b'/' ∷ join_slash (q ∷ ps))

-- The escaped form of a path of bytes is decoded to that path.
pub unescape-escape_path_segments :
    (p : Bytes) → All IsByte p → unescape (escape_path_segments p) ≡ some p
unfolding escape_path_segments
unescape-escape_path_segments p h =
    unescape-join_slash (split_slash p) (split_slash-All IsByte p h)
    ∙ ap some (join_slash-split_slash p)
