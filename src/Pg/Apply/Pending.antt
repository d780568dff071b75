-- ===== src/Pg/Apply/Pending.antt =====
-- Which migrations Runner.Apply of pg/runner.go takes for pending.
use packages_go.Prelude.{
  ◌≡◌, ◌⊎◌, inl, inr, refl, sym, ◌∙◌, ap, List, [], ◌∷◌, none, some, Bytes, bytes_eq, bytes_eq_iff,
  bytes_eq_refl, Option-cases, Bool-cases, if◌then◌else◌, All, arith, ℤ,
}
use mathlib.Core.Path.{subst}
use packages_go.Pg.Migration.{Migration}
use packages_go.Pg.Migration.Valid.{Above, IsAscending}
use packages_go.Pg.Apply.{scan_rows, applied_name, Split, drifted, pending, prepend, split_pending}

-- The migrations whose version the ledger does not hold.
unfoldable pub missing : List (ℤ × Bytes) → List Migration → List Migration
missing applied [] = []
missing applied (m ∷ ms) = elim (applied_name m.version applied) [
  | none ↦ m ∷ missing applied ms
  | some _ ↦ missing applied ms
]

-- The ledger holds this migration under its own name.
abbrev pub Recorded : List (ℤ × Bytes) → Migration → Type 0
Recorded applied m = applied_name m.version applied ≡ some m.name

-- What the ledger says of a migration agrees with it.
abbrev pub Agrees : List (ℤ × Bytes) → Migration → Type 0
Agrees applied m = (applied_name m.version applied ≡ none) ⊎ Recorded applied m

prepend-eq :
    (m : Migration) (s : Split) (q : List Migration)
    → prepend m s ≡ pending q
    → (t : List Migration) × (s ≡ pending t) × (q ≡ m ∷ t)
prepend-eq m (drifted v) q e = cc
prepend-eq m (pending t) q e = (t, refl, cc)

module _ (applied : List (ℤ × Bytes)) (m : Migration) (ms : List Migration) where
  split_pending-new :
      applied_name m.version applied ≡ none
      → split_pending applied (m ∷ ms) ≡ prepend m (split_pending applied ms)
  unfolding split_pending
  split_pending-new e = rw (e, split_pending)

  split_pending-known :
      (name : Bytes)
      → applied_name m.version applied ≡ some name
      → split_pending applied (m ∷ ms)
        ≡ (if bytes_eq name m.name then split_pending applied ms else drifted m.version)
  unfolding split_pending
  split_pending-known name e = rw (e, split_pending)

  missing-new :
      applied_name m.version applied ≡ none → missing applied (m ∷ ms) ≡ m ∷ missing applied ms
  unfolding missing
  missing-new e = rw (e, missing)

  missing-known :
      (name : Bytes)
      → applied_name m.version applied ≡ some name
      → missing applied (m ∷ ms) ≡ missing applied ms
  unfolding missing
  missing-known name e = rw (e, missing)

known_step :
    (applied : List (ℤ × Bytes)) (m : Migration) (ms q : List Migration) (name : Bytes)
    → applied_name m.version applied ≡ some name
    → split_pending applied (m ∷ ms) ≡ pending q
    → (name ≡ m.name) × (split_pending applied ms ≡ pending q)
known_step applied m ms q name f e =
    let step = split_pending-known applied m ms name f in
    elim (Bool-cases (bytes_eq name m.name)) [
      | inl same ↦ ((bytes_eq_iff name m.name).0 same, ground (arith, step))
      | inr other ↦ absurd (ground (arith, step))
    ]

-- The loop succeeds with the missing migrations, and only when the ledger agrees with all.
pub split_pending_sound :
    (applied : List (ℤ × Bytes)) (ms q : List Migration)
    → split_pending applied ms ≡ pending q
    → (q ≡ missing applied ms) × All (Agrees applied) ms
unfolding split_pending missing
split_pending_sound applied [] q e = (cc, tt)
split_pending_sound applied (m ∷ ms) q e = elim (Option-cases (applied_name m.version applied)) [
  | inl f ↦
      let (t, s, same) =
        prepend-eq m (split_pending applied ms) q (sym (split_pending-new applied m ms f) ∙ e) in
      let (tail, agree) = split_pending_sound applied ms t s in
      (same ∙ ap (◌∷◌ m) tail ∙ sym (missing-new applied m ms f), (inl f, agree))
  | inr (name, f) ↦
      let (same, rest) = known_step applied m ms q name f e in
      let (tail, agree) = split_pending_sound applied ms q rest in
      (tail ∙ sym (missing-known applied m ms name f), (inr (f ∙ ap some same), agree))
]

-- Nothing is pending when all are recorded.
pub split_pending-Recorded :
    (applied : List (ℤ × Bytes)) (ms : List Migration)
    → All (Recorded applied) ms
    → split_pending applied ms ≡ pending []
unfolding split_pending
split_pending-Recorded applied [] h = refl
split_pending-Recorded applied (m ∷ ms) (f, h) =
    split_pending-known applied m ms m.name f
    ∙ rw (bytes_eq_refl m.name) (split_pending-Recorded applied ms h)

pub missing-Above :
    (v : ℤ) (applied : List (ℤ × Bytes)) (ms : List Migration)
    → Above v ms
    → Above v (missing applied ms)
unfolding missing
missing-Above v applied [] h = tt
missing-Above v applied (m ∷ ms) (f, h) = elim (Option-cases (applied_name m.version applied)) [
  | inl e ↦ rw (missing-new applied m ms e) (f, missing-Above v applied ms h)
  | inr (name, e) ↦ rw (missing-known applied m ms name e) (missing-Above v applied ms h)
]

abbrev pub pairs : List Migration → List (ℤ × Bytes)
pairs [] = []
pairs (m ∷ ms) = (m.version, m.name) ∷ pairs ms

-- Rows of later versions do not cover an earlier one.
applied_name-Above :
    (v : ℤ) (applied : List (ℤ × Bytes)) (ms : List Migration)
    → Above v ms
    → applied_name v (scan_rows applied (pairs ms)) ≡ applied_name v applied
unfolding applied_name scan_rows
applied_name-Above v applied [] h = refl
applied_name-Above v applied (m ∷ ms) (f, h) =
    applied_name-Above v ((m.version, m.name) ∷ applied) ms h ∙ ground arith

-- Two maps say the same of every listed version.
abbrev SameOn : List (ℤ × Bytes) → List (ℤ × Bytes) → List Migration → Type 0
SameOn a b ms = All (λ m. applied_name m.version b ≡ applied_name m.version a) ms

SameOn-cons :
    (a b : List (ℤ × Bytes)) (v : ℤ) (name : Bytes) (ms : List Migration)
    → Above v ms
    → SameOn a b ms
    → SameOn a ((v, name) ∷ b) ms
unfolding applied_name
SameOn-cons a b v name [] h s = tt
SameOn-cons a b v name (m ∷ ms) (f, h) (e, s) = (ground arith, SameOn-cons a b v name ms h s)

-- Once the missing migrations are in the ledger, all are.
pub Recorded-missing :
    (a b : List (ℤ × Bytes)) (ms : List Migration)
    → IsAscending ms
    → All (Agrees a) ms
    → SameOn a b ms
    → All (Recorded (scan_rows b (pairs (missing a ms)))) ms
unfolding scan_rows applied_name
Recorded-missing a b [] s g e = tt
Recorded-missing a b (m ∷ ms) (over, s) (inl new, g) (f, e) =
    subst (λ q. All (Recorded (scan_rows b (pairs q))) (m ∷ ms)) (sym (missing-new a m ms new))
      (
        applied_name-Above m.version ((m.version, m.name) ∷ b) (missing a ms)
              (missing-Above m.version a ms over)
            ∙ ground arith,
        Recorded-missing a ((m.version, m.name) ∷ b) ms s g
            (SameOn-cons a b m.version m.name ms over e),
      )
Recorded-missing a b (m ∷ ms) (over, s) (inr known, g) (f, e) =
    subst (λ q. All (Recorded (scan_rows b (pairs q))) (m ∷ ms))
      (sym (missing-known a m ms m.name known))
      (
        applied_name-Above m.version b (missing a ms) (missing-Above m.version a ms over)
            ∙ f
            ∙ known,
        Recorded-missing a b ms s g e,
      )
