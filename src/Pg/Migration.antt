-- ===== src/Pg/Migration.antt =====
-- pg/migration.go, and validateMigrations of pg/runner.go.
pub mod Valid
use packages_go.Prelude.{
  ℕ, ◌+◌, Bool, true, false, ◌&&◌, List, [], ◌∷◌, Option, none, some, Bytes, is_blank, ltb, leb_ℤ,
  if◌then◌else◌, ℤ, pos,
}

pub record Migration : Type 0 where
  pub version : ℤ
  pub name : Bytes
  pub sql : Bytes
  pub data_bearing : Bool

pub record ApplyOptions : Type 0 where
  pub waive_export : Bool
  pub waiver_reason : Bytes

pub data MigrationError : Type 0 where
  not_positive not_increasing name_required sql_required : ℤ → MigrationError

-- The loop of validateMigrations; `none` is the nil error.
unfoldable pub validate_from : ℕ → ℤ → List Migration → Option MigrationError
validate_from index previous [] = none
validate_from index previous (m ∷ ms) =
    if leb_ℤ m.version (pos 0)
    then some (not_positive m.version)
    else if ltb 0 index && leb_ℤ m.version previous
    then some (not_increasing m.version)
    else if is_blank m.name
    then some (name_required m.version)
    else if is_blank m.sql
    then some (sql_required m.version)
    else validate_from (index + 1) m.version ms

unfoldable pub validate_migrations : List Migration → Option MigrationError
unfolding validate_from
validate_migrations ms = validate_from 0 (pos 0) ms
