-- ===== src/Packaging/Paths/Safe.antt =====
-- Which paths safeRelativePath of packaging/manifest.go accepts.
use packages_go.Prelude.{
  ℕ, ◌≡◌, refl, sym, ◌∙◌, ap, Bool, true, false, not, ◌&&◌, ◌||◌, ◌↔◌, ◌⊎◌, inl, inr, List, [], ◌∷◌,
  Bytes, All, ◌==◌, if◌then◌else◌, Bool-cases, ==_iff, arith, bytes_eq, bytes_eq_iff, bytes_eq_refl,
  is_empty, and_split, has_prefix,
}
use mathlib.Core.Path.{subst}
use packages_go.Slashes.{split_slash, join_slash, dot, dots, clean_pieces, or_dot, reversed, clean}
use packages_go.Slashes.Pieces.{
  HasNoSlash, join_slash-split_slash, split_slash-HasNoSlash, split_slash-join_slash,
}
use packages_go.Slashes.Clean.{
  IsNormal, clean_pieces-IsNormal, reversed-reversed, Kept-nil, clean_pieces-Kept, Kept-cases,
  All-reversed, IsBelow,
}
use packages_go.Packaging.Paths.{safe_relative_path, stays, up_slash}

abbrev kept_of : Bytes → List Bytes
kept_of path = clean_pieces false [] (split_slash path)

clean_relative :
    (c : ℕ) (s : Bytes)
    → (c == b'/') ≡ false
    → clean (c ∷ s) ≡ or_dot (join_slash (reversed (kept_of (c ∷ s)) []))
unfolding clean
clean_relative c s e = rw e refl

clean-IsBelow : (c : ℕ) (s : Bytes) → (c == b'/') ≡ false → IsBelow (c ∷ s) → clean (c ∷ s) ≡ c ∷ s
clean-IsBelow c s e h =
    let pushed : kept_of (c ∷ s) ≡ reversed (split_slash (c ∷ s)) [] =
      clean_pieces-IsNormal false (split_slash (c ∷ s)) [] h in
    let turned : reversed (kept_of (c ∷ s)) [] ≡ split_slash (c ∷ s) =
      ap (λ (l : List Bytes). reversed l []) pushed ∙ reversed-reversed (split_slash (c ∷ s)) in
    clean_relative c s e
    ∙ ap (λ (l : List Bytes). or_dot (join_slash l)) turned
    ∙ ap or_dot (join_slash-split_slash (c ∷ s))

join_slash-dots :
    (rest : List Bytes)
    → (bytes_eq (join_slash (dots ∷ rest)) dots
        || has_prefix (join_slash (dots ∷ rest)) (b'.' ∷ b'.' ∷ b'/' ∷ []))
      ≡ true
unfolding join_slash bytes_eq has_prefix
join_slash-dots [] = refl
join_slash-dots (p ∷ rest) = refl

or_dot-join_slash :
    (p : Bytes) (ps : List Bytes)
    → is_empty p ≡ false
    → or_dot (join_slash (p ∷ ps)) ≡ join_slash (p ∷ ps)
unfolding join_slash
or_dot-join_slash [] ps h = cc
or_dot-join_slash (c ∷ p) [] h = refl
or_dot-join_slash (c ∷ p) (q ∷ ps) h = refl

IsBelow-join_slash :
    (l : List Bytes) (path : Bytes)
    → All IsNormal l
    → All HasNoSlash l
    → or_dot (join_slash l) ≡ path
    → (path ≡ dot) ⊎ IsBelow path
unfolding join_slash
IsBelow-join_slash [] path h k e = inl (sym e)
IsBelow-join_slash (p ∷ ps) path h k e =
    let joined : join_slash (p ∷ ps) ≡ path = sym (or_dot-join_slash p ps h.0.filled) ∙ e in
    let pieces : p ∷ ps ≡ split_slash path =
      sym (split_slash-join_slash p ps k) ∙ ap split_slash joined in
    inr (subst (All IsNormal) pieces h)

-- A path that Clean leaves alone, and that does not start with "..", stays below or is ".".
clean_fixed :
    (c : ℕ) (s : Bytes)
    → (c == b'/') ≡ false
    → clean (c ∷ s) ≡ c ∷ s
    → (bytes_eq (c ∷ s) dots || has_prefix (c ∷ s) (b'.' ∷ b'.' ∷ b'/' ∷ [])) ≡ false
    → ((c ∷ s) ≡ dot) ⊎ IsBelow (c ∷ s)
clean_fixed c s e fixed up =
    let (kept, plain) =
      clean_pieces-Kept (split_slash (c ∷ s)) [] (split_slash-HasNoSlash (c ∷ s)) tt Kept-nil in
    let l = reversed (kept_of (c ∷ s)) [] in
    let joined : or_dot (join_slash l) ≡ c ∷ s = sym (clean_relative c s e) ∙ fixed in
    elim (Kept-cases (kept_of (c ∷ s)) kept) [
      | inl h ↦
          IsBelow-join_slash l (c ∷ s) (All-reversed IsNormal (kept_of (c ∷ s)) [] h tt)
            (All-reversed HasNoSlash (kept_of (c ∷ s)) [] plain tt) joined
      | inr (rest, same) ↦
          let start : join_slash (dots ∷ rest) ≡ c ∷ s =
            sym (or_dot-join_slash dots rest refl)
            ∙ ap (λ (m : List Bytes). or_dot (join_slash m)) (sym same)
            ∙ joined in
          absurd (cc (join_slash-dots rest, start, up))
    ]

-- Pieces that name something do not start with "..".
IsBelow-no_dots : (path : Bytes) → IsBelow path → bytes_eq path dots ≡ false
unfolding split_slash bytes_eq
IsBelow-no_dots path h = elim (Bool-cases (bytes_eq path dots)) [
  | inr e ↦ e
  | inl e ↦
      let same : path ≡ dots = (bytes_eq_iff path dots).0 e in
      let below : IsBelow dots = subst IsBelow same h in absurd (cc below.0.not_dots)
]

IsBelow-no_up : (path : Bytes) → IsBelow path → has_prefix path up_slash ≡ false
unfolding split_slash has_prefix bytes_eq
IsBelow-no_up [] h = refl
IsBelow-no_up (c ∷ []) h = ground arith
IsBelow-no_up (c ∷ d ∷ []) h = ground arith
IsBelow-no_up (c ∷ d ∷ e ∷ s) h = elim (Bool-cases (has_prefix (c ∷ d ∷ e ∷ s) up_slash)) [
  | inr k ↦ k
  | inl k ↦
      let (c_is, rest) = and_split (c == b'.') ((d == b'.') && ((e == b'/') && true)) k in
      let (d_is, more) = and_split (d == b'.') ((e == b'/') && true) rest in
      let (e_is, _) = and_split (e == b'/') true more in
      let same : (c ∷ d ∷ e ∷ s) ≡ (b'.' ∷ b'.' ∷ b'/' ∷ s) = ground arith in
      let below : IsBelow (b'.' ∷ b'.' ∷ b'/' ∷ s) = subst IsBelow same h in
      absurd (cc below.0.not_dots)
]

IsBelow-relative : (c : ℕ) (s : Bytes) → IsBelow (c ∷ s) → (c == b'/') ≡ false
unfolding split_slash
IsBelow-relative c s h = elim (Bool-cases (c == b'/')) [
  | inr e ↦ e
  | inl e ↦
      let same : c ≡ b'/' = (==_iff c b'/').0 e in
      let below : IsBelow (b'/' ∷ s) = subst (λ k. IsBelow (k ∷ s)) same h in
      absurd (cc below.0.filled)
]

IsBelow-nil : IsBelow [] → ⊥
unfolding split_slash
IsBelow-nil h = cc h.0.filled

safe_relative_path-relative :
    (c : ℕ) (s : Bytes)
    → (c == b'/') ≡ false
    → safe_relative_path (c ∷ s) ≡ stays (c ∷ s) (clean (c ∷ s))
unfolding safe_relative_path
safe_relative_path-relative c s e = ap (λ b. if b then false else stays (c ∷ s) (clean (c ∷ s))) e

IsBelow-safe : (path : Bytes) → IsBelow path → safe_relative_path path ≡ true
unfolding stays
IsBelow-safe [] h = absurd (IsBelow-nil h)
IsBelow-safe (c ∷ s) h =
    let e = IsBelow-relative c s h in
    let kept : stays (c ∷ s) (c ∷ s) ≡ true =
      rw (bytes_eq_refl (c ∷ s), IsBelow-no_dots (c ∷ s) h, IsBelow-no_up (c ∷ s) h) refl in
    safe_relative_path-relative c s e ∙ ap (stays (c ∷ s)) (clean-IsBelow c s e h) ∙ kept

neither_negated : (a b : Bool) → (not a && not b) ≡ true → (a || b) ≡ false
neither_negated true b h = cc
neither_negated false true h = cc
neither_negated false false h = refl

stays-fixed :
    (path cleaned : Bytes)
    → stays path cleaned ≡ true
    → (cleaned ≡ path) × ((bytes_eq path dots || has_prefix path up_slash) ≡ false)
unfolding stays
stays-fixed path cleaned h =
    let (kept, up) =
      and_split (bytes_eq cleaned path)
        (not (bytes_eq cleaned dots) && not (has_prefix cleaned up_slash)) h in
    let same : cleaned ≡ path = (bytes_eq_iff cleaned path).0 kept in
    (
      same,
      subst (λ q. (bytes_eq q dots || has_prefix q up_slash) ≡ false) same
          (neither_negated (bytes_eq cleaned dots) (has_prefix cleaned up_slash) up),
    )

safe-IsBelow : (path : Bytes) → safe_relative_path path ≡ true → (path ≡ dot) ⊎ IsBelow path
unfolding safe_relative_path
safe-IsBelow [] h = cc
safe-IsBelow (c ∷ s) h = elim (Bool-cases (c == b'/')) [
  | inl e ↦ absurd (cc (h, e))
  | inr e ↦
      let (fixed, up) =
        stays-fixed (c ∷ s) (clean (c ∷ s)) (sym (safe_relative_path-relative c s e) ∙ h) in
      clean_fixed c s e fixed up
]

dot_safe : safe_relative_path dot ≡ true
unfolding safe_relative_path stays clean split_slash clean_pieces reversed join_slash bytes_eq
    has_prefix
dot_safe = refl

-- safeRelativePath accepts exactly "." and the paths whose every piece between slashes names
-- something: none is empty, "." or "..", so that the path stays below where it starts.
pub safe_relative_path_iff :
    (path : Bytes) → (safe_relative_path path ≡ true) ↔ ((path ≡ dot) ⊎ IsBelow path)
safe_relative_path_iff path = (
  safe-IsBelow path,
  λ h. elim h [ inl same ↦ rw same dot_safe | inr below ↦ IsBelow-safe path below ],
)
