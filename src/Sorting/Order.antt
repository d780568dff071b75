-- ===== src/Sorting/Order.antt =====
-- A sorted list is in order, holds what was sorted, and is the only one that does.
use packages_go.Prelude.{
  ◌≡◌, ◌≢◌, refl, sym, ap, ◌∙◌, true, false, List, [], ◌∷◌, Bytes, Bool-cases, inl, inr, All, arith,
}
use mathlib.Core.Path.{subst}
use mathlib.Core.List.{Permᴰ}
use packages_go.Sorting.{before, insert, sort}

pub before_irrefl : (a : Bytes) → before a a ≡ false
unfolding before
before_irrefl [] = refl
before_irrefl (x ∷ a) = ground (arith, before_irrefl a)

pub before_trans : (a b c : Bytes) → before a b ≡ true → before b c ≡ true → before a c ≡ true
unfolding before
before_trans [] [] c h k = cc
before_trans [] (y ∷ b) [] h k = cc
before_trans [] (y ∷ b) (z ∷ c) h k = refl
before_trans (x ∷ a) [] c h k = cc
before_trans (x ∷ a) (y ∷ b) [] h k = cc
before_trans (x ∷ a) (y ∷ b) (z ∷ c) h k = ground (arith, before_trans a b c)

pub before_asym : (a b : Bytes) → before a b ≡ true → before b a ≡ false
before_asym a b h = elim (Bool-cases (before b a)) [
  | inr e ↦ e
  | inl e ↦ absurd (cc (before_trans a b a h e, before_irrefl a))
]

pub before_total : (a b : Bytes) → a ≢ b → before a b ≡ false → before b a ≡ true
unfolding before
before_total [] [] n h = absurd (n refl)
before_total [] (y ∷ b) n h = cc
before_total (x ∷ a) [] n h = refl
before_total (x ∷ a) (y ∷ b) n h = ground (arith, before_total a b)

All-Perm {ℓ} : {A : Type 0} (P : A → Type ℓ) {xs ys : List A} → Permᴰ xs ys → All P xs → All P ys
All-Perm P Permᴰ.nil h = tt
All-Perm P (Permᴰ.cons e d) (h, k) = (subst P e h, All-Perm P d k)
All-Perm P (Permᴰ.swap e f) (h, (k, l)) = (subst P f k, (subst P e h, l))
All-Perm P (Permᴰ.trans d d') h = All-Perm P d' (All-Perm P d h)

module _ {A : Type 0} (key : A → Bytes) where
  -- No two elements have the same key.
  abbrev pub HasDistinct : List A → Type 0
  HasDistinct [] = Unit
  HasDistinct (x ∷ xs) = All (λ y. key x ≢ key y) xs × HasDistinct xs

  HasDistinct-Perm : {xs ys : List A} → Permᴰ xs ys → HasDistinct xs → HasDistinct ys
  HasDistinct-Perm Permᴰ.nil h = tt
  HasDistinct-Perm (Permᴰ.cons {a = a} {b = b} {l₂ = l₂} e d) (h, k) = (
    subst (λ c. All (λ y. key c ≢ key y) l₂) e (All-Perm (λ y. key a ≢ key y) d h),
    HasDistinct-Perm d k,
  )
  HasDistinct-Perm (Permᴰ.swap {a = a} {b = b} {a' = a'} {b' = b'} {l = l'} e f) ((n, h), (k, l)) =
      let apart : key a' ≢ key b' = λ same. n (ap key e ∙ sym same ∙ sym (ap key f)) in
      let first : All (λ y. key a' ≢ key y) l' = subst (λ c. All (λ y. key c ≢ key y) l') f k in
      let second : All (λ y. key b' ≢ key y) l' = subst (λ c. All (λ y. key c ≢ key y) l') e h in
      ((apart, first), (second, l))
  HasDistinct-Perm (Permᴰ.trans d d') h = HasDistinct-Perm d' (HasDistinct-Perm d h)

  insert-after :
      (x y : A) (ys : List A)
      → before (key y) (key x) ≡ true
      → insert key x (y ∷ ys) ≡ y ∷ insert key x ys
  unfolding insert
  insert-after x y ys h = rw h refl

  insert-in_front :
      (x y : A) (ys : List A) → before (key y) (key x) ≡ false → insert key x (y ∷ ys) ≡ x ∷ y ∷ ys
  unfolding insert
  insert-in_front x y ys h = rw h refl

  insert-insert_lt :
      (x y : A) (zs : List A)
      → before (key x) (key y) ≡ true
      → insert key x (insert key y zs) ≡ insert key y (insert key x zs)
  unfolding insert
  insert-insert_lt x y [] h = rw (h, before_asym (key x) (key y) h) refl
  insert-insert_lt x y (z ∷ zs) h =
      let k = before_asym (key x) (key y) h in
      elim (Bool-cases (before (key z) (key x))) [
        | inl zx ↦
            let zy = before_trans (key z) (key x) (key y) zx h in
            rw (zx, zy, zx) (ap (λ (l : List A). z ∷ l) (insert-insert_lt x y zs h))
        | inr zx ↦ elim (Bool-cases (before (key z) (key y))) [
          | inl zy ↦ rw (zx, zy, zx, h) refl
          | inr zy ↦ rw (zx, zy, k, h) refl
        ]
      ]

  insert-insert :
      (x y : A) (zs : List A)
      → key x ≢ key y
      → insert key x (insert key y zs) ≡ insert key y (insert key x zs)
  insert-insert x y zs n = elim (Bool-cases (before (key x) (key y))) [
    | inl h ↦ insert-insert_lt x y zs h
    | inr h ↦ sym (insert-insert_lt y x zs (before_total (key x) (key y) n h))
  ]

  -- Sorting forgets the order in which the elements came.
  pub sort-Perm : {xs ys : List A} → Permᴰ xs ys → HasDistinct xs → sort key xs ≡ sort key ys
  unfolding sort
  sort-Perm Permᴰ.nil h = refl
  sort-Perm (Permᴰ.cons {a = a} {b = b} e d) (h, k) = rw (e, sort-Perm d k) refl
  sort-Perm (Permᴰ.swap {a = a} {b = b} {a' = a'} {b' = b'} {l = l'} e f) ((n, h), (k, l)) =
      rw (← e, ← f) (insert-insert a b (sort key l') n)
  sort-Perm (Permᴰ.trans d d') h = sort-Perm d h ∙ sort-Perm d' (HasDistinct-Perm d h)

  All-insert {ℓ} : (P : A → Type ℓ) (x : A) (ys : List A) → P x → All P ys → All P (insert key x ys)
  unfolding insert
  All-insert P x [] h k = (h, tt)
  All-insert P x (y ∷ ys) h (k, l) = elim (Bool-cases (before (key y) (key x))) [
    | inl e ↦ rw e (k, All-insert P x ys h l)
    | inr e ↦ let rest : All P (y ∷ ys) = (k, l) in rw e (h, rest)
  ]

  pub All-sort {ℓ} : (P : A → Type ℓ) (xs : List A) → All P xs → All P (sort key xs)
  unfolding sort
  All-sort P [] h = tt
  All-sort P (x ∷ xs) (h, k) = All-insert P x (sort key xs) h (All-sort P xs k)
