-- ===== src/Slashes/Pieces.antt =====
-- Splitting at slashes and joining with them undo each other.
use packages_go.Prelude.{
  ℕ, ◌≡◌, ◌≢◌, refl, sym, ◌∙◌, ap, false, List, [], ◌∷◌, ◌++◌, Bytes, All, ◌==◌, Bool-cases, inl,
  inr, ==_iff, arith,
}
use mathlib.Core.Path.{subst}
use packages_go.Slashes.{onto_first, split_slash, join_slash}

abbrev pub HasNoSlash : Bytes → Type 0
HasNoSlash = All (λ (c : ℕ). c ≢ b'/')

-- The piece in front of pieces is never missing.
split_slash-cons : (s : Bytes) → (p : Bytes) × (ps : List Bytes) × (split_slash s ≡ p ∷ ps)
unfolding split_slash
split_slash-cons [] = ([], [], refl)
split_slash-cons (c ∷ s) = elim (Bool-cases (c == b'/')) [
  | inl e ↦ ([], split_slash s, rw e refl)
  | inr e ↦ let (p, ps, same) = split_slash-cons s in (c ∷ p, ps, rw (e, same) refl)
]

join_slash-onto_first :
    (c : ℕ) (p : Bytes) (ps : List Bytes)
    → join_slash (onto_first c (p ∷ ps)) ≡ c ∷ join_slash (p ∷ ps)
unfolding join_slash
join_slash-onto_first c p [] = refl
join_slash-onto_first c p (q ∷ ps) = refl

pub join_slash-split_slash : (s : Bytes) → join_slash (split_slash s) ≡ s
unfolding split_slash join_slash
join_slash-split_slash [] = refl
join_slash-split_slash (c ∷ s) =
    let (p, ps, same) = split_slash-cons s in
    let later : join_slash (p ∷ ps) ≡ s = ap join_slash (sym same) ∙ join_slash-split_slash s in
    elim (Bool-cases (c == b'/')) [
      | inl e ↦
          let slash : c ≡ b'/' = (==_iff c b'/').0 e in
          rw (e, same, slash) (ap (λ (t : Bytes). b'/' ∷ t) later)
      | inr e ↦ rw (e, same) (join_slash-onto_first c p ps ∙ ap (λ (t : Bytes). c ∷ t) later)
    ]

pub split_slash-HasNoSlash : (s : Bytes) → All HasNoSlash (split_slash s)
unfolding split_slash
split_slash-HasNoSlash [] = (tt, tt)
split_slash-HasNoSlash (c ∷ s) = elim (Bool-cases (c == b'/')) [
  | inl e ↦ rw e (tt, split_slash-HasNoSlash s)
  | inr e ↦
      let (p, ps, same) = split_slash-cons s in
      let later : All HasNoSlash (p ∷ ps) =
        subst (All HasNoSlash) same (split_slash-HasNoSlash s) in
      let first : HasNoSlash (c ∷ p) = (ground arith, later.0) in rw (e, same) (first, later.1)
]

pub split_slash-All : (P : ℕ → Type 0) (s : Bytes) → All P s → All (All P) (split_slash s)
unfolding split_slash
split_slash-All P [] h = (tt, tt)
split_slash-All P (c ∷ s) (h, k) = elim (Bool-cases (c == b'/')) [
  | inl e ↦ rw e (tt, split_slash-All P s k)
  | inr e ↦
      let (p, ps, same) = split_slash-cons s in
      let later : All (All P) (p ∷ ps) = subst (All (All P)) same (split_slash-All P s k) in
      let first : All P (c ∷ p) = (h, later.0) in rw (e, same) (first, later.1)
]

pub split_slash-append :
    (p s : Bytes) → HasNoSlash p → split_slash (p ++ (b'/' ∷ s)) ≡ p ∷ split_slash s
unfolding split_slash
split_slash-append [] s h = refl
split_slash-append (c ∷ p) s (h, k) =
    let n : (c == b'/') ≡ false = ground arith in rw (n, split_slash-append p s k) refl

split_slash-HasNoSlash_one : (p : Bytes) → HasNoSlash p → split_slash p ≡ p ∷ []
unfolding split_slash
split_slash-HasNoSlash_one [] h = refl
split_slash-HasNoSlash_one (c ∷ p) (h, k) =
    let n : (c == b'/') ≡ false = ground arith in rw (n, split_slash-HasNoSlash_one p k) refl

pub split_slash-join_slash :
    (p : Bytes) (ps : List Bytes)
    → All HasNoSlash (p ∷ ps)
    → split_slash (join_slash (p ∷ ps)) ≡ p ∷ ps
unfolding join_slash
split_slash-join_slash p [] (h, k) = split_slash-HasNoSlash_one p h
split_slash-join_slash p (q ∷ ps) (h, k) =
    split_slash-append p (join_slash (q ∷ ps)) h
    ∙ ap (λ (l : List Bytes). p ∷ l) (split_slash-join_slash q ps k)
