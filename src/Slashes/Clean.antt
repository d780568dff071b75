-- ===== src/Slashes/Clean.antt =====
-- What path.Clean leaves of a relative path.
use packages_go.Prelude.{
  ◌≡◌, refl, sym, ◌∙◌, ap, Bool, true, false, ◌||◌, ◌⊎◌, inl, inr, List, [], ◌∷◌, ◌++◌, Bytes, All,
  Bool-cases, arith, bytes_eq, bytes_eq_iff, is_empty, neither, append-nil,
}
use packages_go.Slashes.{
  dot, dots, back, clean_step, clean_pieces, reversed, split_slash, join_slash, clean,
}
use packages_go.Slashes.Pieces.{HasNoSlash, join_slash-split_slash}

-- A piece that names something: not empty, "." or "..".
pub record IsNormal (p : Bytes) : Type 0 where
  pub filled : is_empty p ≡ false
  pub not_dot : bytes_eq p dot ≡ false
  pub not_dots : bytes_eq p dots ≡ false

-- A path whose every piece names something stays below the directory that it starts from.
abbrev pub IsBelow : Bytes → Type 0
IsBelow path = All IsNormal (split_slash path)

pub clean_pieces-IsNormal :
    (rooted : Bool) (ps kept : List Bytes)
    → All IsNormal ps
    → clean_pieces rooted kept ps ≡ reversed ps kept
unfolding clean_pieces reversed
clean_pieces-IsNormal rooted [] kept h = refl
clean_pieces-IsNormal rooted (p ∷ ps) kept (h, k) =
    rw (h.filled, h.not_dot, h.not_dots) (clean_pieces-IsNormal rooted ps (p ∷ kept) k)

reversed_twice :
    (ps kept tail : List Bytes) → reversed (reversed ps kept) tail ≡ reversed kept (ps ++ tail)
unfolding reversed
reversed_twice [] kept tail = refl
reversed_twice (p ∷ ps) kept tail = reversed_twice ps (p ∷ kept) tail

pub reversed-reversed : (ps : List Bytes) → reversed (reversed ps []) [] ≡ ps
unfolding reversed
reversed-reversed ps = reversed_twice ps [] [] ∙ append-nil ps

reversed-append :
    (ps tail more : List Bytes) → reversed ps tail ++ more ≡ reversed ps (tail ++ more)
unfolding reversed
reversed-append [] tail more = refl
reversed-append (p ∷ ps) tail more = reversed-append ps (p ∷ tail) more

pub All-reversed {ℓ} :
    (P : Bytes → Type ℓ) (ps tail : List Bytes) → All P ps → All P tail → All P (reversed ps tail)
unfolding reversed
All-reversed P [] tail h k = k
All-reversed P (p ∷ ps) tail (h, l) k = All-reversed P ps (p ∷ tail) l (h, k)

-- What is kept of a relative path, the last piece first: pieces that name something, on top of "..".
unfoldable pub Kept : List Bytes → Type 0
Kept [] = Unit
Kept (p ∷ kept) = (IsNormal p × Kept kept) ⊎ ((p ≡ dots) × All (λ q. q ≡ dots) kept)

pub Kept-nil : Kept []
unfolding Kept
Kept-nil = tt

All-dots-Kept : (kept : List Bytes) → All (λ q. q ≡ dots) kept → Kept kept
unfolding Kept
All-dots-Kept [] h = tt
All-dots-Kept (p ∷ kept) (h, k) = inr (h, k)

Kept-back : (kept : List Bytes) → Kept kept → Kept (back false kept)
unfolding Kept
Kept-back [] h = inr (refl, tt)
Kept-back (p ∷ kept) (inl (n, k)) = rw (n.not_dots) k
Kept-back (p ∷ kept) (inr (same, k)) =
    let e : bytes_eq p dots ≡ true = (bytes_eq_iff p dots).1 same in rw e (inr (refl, (same, k)))

Kept-clean_step : (p : Bytes) (kept : List Bytes) → Kept kept → Kept (clean_step false p kept)
unfolding Kept
Kept-clean_step p kept h = elim (Bool-cases (is_empty p || bytes_eq p dot)) [
  | inl e ↦ rw e h
  | inr e ↦ elim (Bool-cases (bytes_eq p dots)) [
    | inl k ↦ rw (e, k) (Kept-back kept h)
    | inr k ↦
        let (f, d) = neither (is_empty p) (bytes_eq p dot) e in
        let normal : IsNormal p = record { filled = f; not_dot = d; not_dots = k } in
        rw (e, k) (inl (normal, h))
  ]
]

HasNoSlash-back : (kept : List Bytes) → All HasNoSlash kept → All HasNoSlash (back false kept)
HasNoSlash-back [] h = (omega arith, tt)
HasNoSlash-back (p ∷ kept) (h, k) = elim (Bool-cases (bytes_eq p dots)) [
  | inl e ↦ let later : All HasNoSlash (p ∷ kept) = (h, k) in rw e (omega arith, later)
  | inr e ↦ rw e k
]

HasNoSlash-clean_step :
    (p : Bytes) (kept : List Bytes)
    → HasNoSlash p
    → All HasNoSlash kept
    → All HasNoSlash (clean_step false p kept)
HasNoSlash-clean_step p kept s h = elim (Bool-cases (is_empty p || bytes_eq p dot)) [
  | inl e ↦ rw e h
  | inr e ↦ elim (Bool-cases (bytes_eq p dots)) [
    | inl k ↦ rw (e, k) (HasNoSlash-back kept h)
    | inr k ↦ rw (e, k) (s, h)
  ]
]

pub clean_pieces-Kept :
    (ps kept : List Bytes)
    → All HasNoSlash ps
    → All HasNoSlash kept
    → Kept kept
    → Kept (clean_pieces false kept ps) × All HasNoSlash (clean_pieces false kept ps)
unfolding clean_pieces
clean_pieces-Kept [] kept h k l = (l, k)
clean_pieces-Kept (p ∷ ps) kept (h, m) k l =
    clean_pieces-Kept ps (clean_step false p kept) m (HasNoSlash-clean_step p kept h k)
      (Kept-clean_step p kept l)

reversed-dots :
    (kept tail : List Bytes)
    → All (λ q. q ≡ dots) kept
    → (rest : List Bytes) × (reversed kept (dots ∷ tail) ≡ dots ∷ rest)
unfolding reversed
reversed-dots [] tail h = (tail, refl)
reversed-dots (p ∷ kept) tail (h, k) =
    let (rest, same) = reversed-dots kept (dots ∷ tail) k in (rest, rw h same)

-- Either all that is kept names something, or the path starts with "..".
pub Kept-cases :
    (kept : List Bytes)
    → Kept kept
    → All IsNormal kept ⊎ ((rest : List Bytes) × (reversed kept [] ≡ dots ∷ rest))
unfolding Kept reversed
Kept-cases [] h = inl tt
Kept-cases (p ∷ kept) (inr (same, k)) =
    let (rest, e) = reversed-dots kept [] k in inr (rest, rw same e)
Kept-cases (p ∷ kept) (inl (n, k)) = elim (Kept-cases kept k) [
  | inl h ↦ inl (n, h)
  | inr (rest, e) ↦ inr (
    rest ++ (p ∷ []),
    sym (reversed-append kept [] (p ∷ [])) ∙ ap (λ (l : List Bytes). l ++ (p ∷ [])) e,
  )
]

-- A path below the root, however many slashes it starts with.
skip_empty :
    (x : Bytes) → IsBelow x → join_slash (reversed (clean_pieces true [] (split_slash x)) []) ≡ x
skip_empty x h =
    let pushed = clean_pieces-IsNormal true (split_slash x) [] h in
    ap (λ (l : List Bytes). join_slash (reversed l [])) pushed
    ∙ ap join_slash (reversed-reversed (split_slash x))
    ∙ join_slash-split_slash x

pub clean-two : (x : Bytes) → IsBelow x → clean (b'/' ∷ b'/' ∷ x) ≡ b'/' ∷ x
unfolding clean split_slash clean_pieces
clean-two x h = ap (λ (t : Bytes). b'/' ∷ t) (skip_empty x h)

pub clean-four : (x : Bytes) → IsBelow x → clean (b'/' ∷ b'/' ∷ b'/' ∷ b'/' ∷ x) ≡ b'/' ∷ x
unfolding clean split_slash clean_pieces
clean-four x h = ap (λ (t : Bytes). b'/' ∷ t) (skip_empty x h)
