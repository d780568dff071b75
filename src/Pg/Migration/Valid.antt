-- ===== src/Pg/Migration/Valid.antt =====
-- What validateMigrations of pg/runner.go accepts.
use packages_go.Prelude.{
  ℕ, zero, suc, ◌&&◌, ◌+◌, ◌<◌, ◌≡◌, ◌↔◌, refl, false, List, [], ◌∷◌, none, is_blank, All, arith,
  ltb, ℤ, pos, ◌<ℤ◌, leb_ℤ,
}
use packages_go.Pg.Migration.{Migration, validate_from, validate_migrations}

pub record IsAcceptable (m : Migration) : Type 0 where
  pub positive : pos 0 <ℤ m.version
  pub named : is_blank m.name ≡ false
  pub has_sql : is_blank m.sql ≡ false

abbrev pub Above : ℤ → List Migration → Type 0
Above v ms = All (λ m. v <ℤ m.version) ms

-- Every version is above all that stand before it.
abbrev pub IsAscending : List Migration → Type 0
IsAscending [] = Unit
IsAscending (m ∷ ms) = Above m.version ms × IsAscending ms

Above-trans : (u v : ℤ) (ms : List Migration) → u <ℤ v → Above v ms → Above u ms
Above-trans u v [] h k = tt
Above-trans u v (m ∷ ms) h (k, l) = (omega arith, Above-trans u v ms h l)

validate_from-head :
    (i : ℕ) (previous : ℤ) (m : Migration) (ms : List Migration)
    → validate_from i previous (m ∷ ms) ≡ none
    → IsAcceptable m × (0 < i → previous <ℤ m.version) × (validate_from (i + 1) m.version ms ≡ none)
unfolding validate_from
validate_from-head i previous m ms e = (ground arith, λ h. ground arith, ground arith)

validate_from-cons :
    (i : ℕ) (previous : ℤ) (m : Migration) (ms : List Migration)
    → IsAcceptable m
    → ltb 0 i && leb_ℤ m.version previous ≡ false
    → validate_from (i + 1) m.version ms ≡ none
    → validate_from i previous (m ∷ ms) ≡ none
unfolding validate_from
validate_from-cons i previous m ms a h e = ground arith

validate_from_sound :
    (i : ℕ) (previous : ℤ) (ms : List Migration)
    → validate_from i previous ms ≡ none
    → All IsAcceptable ms × (0 < i → Above previous ms) × IsAscending ms
validate_from_sound i previous [] e = (tt, λ h. tt, tt)
validate_from_sound i previous (m ∷ ms) e =
    let (good, after, rest) = validate_from-head i previous m ms e in
    let (all_good, above, ascending) = validate_from_sound (i + 1) m.version ms rest in
    let over = above (omega arith) in
    (
      (good, all_good),
      λ h. (after h, Above-trans previous m.version ms (after h) over),
      (over, ascending),
    )

validate_from_complete :
    (i : ℕ) (previous : ℤ) (ms : List Migration)
    → All IsAcceptable ms
    → (0 < i → Above previous ms)
    → IsAscending ms
    → validate_from i previous ms ≡ none
unfolding validate_from
validate_from_complete i previous [] a h s = refl
validate_from_complete i previous (m ∷ ms) (a, all_good) h (over, s) =
    validate_from-cons i previous m ms a (in_order i h)
      (validate_from_complete (i + 1) m.version ms all_good (λ _. over) s)
  where
    in_order :
        (j : ℕ) → (0 < j → Above previous (m ∷ ms)) → (ltb 0 j && leb_ℤ m.version previous) ≡ false
    in_order zero k = refl
    in_order (suc j) k = let (first, _) = k (omega arith) in ground arith

-- validateMigrations accepts exactly the lists whose versions are positive and strictly increasing,
-- and whose names and statements are not blank.
pub validate_migrations_iff :
    (ms : List Migration) → (validate_migrations ms ≡ none) ↔ (All IsAcceptable ms × IsAscending ms)
unfolding validate_migrations
validate_migrations_iff ms = (
  λ e. let (good, _, ascending) = validate_from_sound 0 (pos 0) ms e in (good, ascending),
  λ h. validate_from_complete 0 (pos 0) ms h.0 (λ z. absurd (omega arith)) h.1,
)
