-- ===== src/Pg/Tests.antt =====
-- A database in memory, runs over it, and the theorems at inputs that meet their hypotheses.
use packages_go.Prelude.{
  ℕ, ◌+◌, ◌≡◌, ◌≢◌, ◌↔◌, ◌⊎◌, inl, refl, sym, ap, is_blank, Bool, true, false, not, List, [], ◌∷◌,
  ◌++◌, Option, none, some, Bytes, codes, bytes_eq, All, arith, ℤ, pos, length,
}
use packages_go.Pg.Migration.{Migration, ApplyOptions, validate_migrations}
use packages_go.Pg.Migration.Valid.{IsAcceptable, IsAscending, validate_migrations_iff}
use packages_go.Pg.Export.{
  ExportReceipt, IsFresh, validate_export_receipt, validate_export_receipt-IsFresh, age_limit, day,
  hex_decode, is_digest,
}
use packages_go.Encoding.Hex.{hex_value}
use packages_go.Pg.Database.{Pool, Transactional, rows, Write, statement, ledger_row, ledger}
use packages_go.Pg.Apply.{
  apply_failed, Runner, scan_rows, split_pending, applied_name, clear_export, apply, apply_one,
  apply_all, apply_cleared, apply_split, apply_reading, apply_created, apply_checked,
}
use packages_go.Pg.Apply.Rerun.{apply-apply}
use packages_go.Pg.Apply.Gate.{apply-IsFresh}
use packages_go.Pg.Transaction.{StaysInside, Atomic}

record Memory : Type 0 where
  done : List Write
  work : List Write

-- A statement "bad" is refused; all else succeeds.
abbrev memory : Pool
memory = record {
  Conn = Memory;
  create_ledger = λ c. (true, c);
  read_ledger = λ c. (rows (ledger c.done), c);
  begin = λ c. (true, record c { work = [] });
  exec = λ s c. (not (bytes_eq s (codes "bad")), record c { work = c.work ++ statement s ∷ [] });
  insert = λ r c. (true, record c { work = c.work ++ ledger_row r ∷ [] });
  commit = λ c. (true, record c { done = c.done ++ c.work });
  rollback = λ c. (true, record c { work = [] });
}

rows_injective : (k l : List (ℤ × Bytes)) → rows k ≡ rows l → k ≡ l
rows_injective k l e = cc

true_ne_false : ◌≡◌ {A = Bool} true false → ⊥
true_ne_false e = cc

abbrev memory_laws : Transactional memory
memory_laws = record {
  committed = λ c. c.done;
  pending = λ c. c.work;
  create_committed = λ c. refl;
  read_committed = λ c. refl;
  read_rows = λ c l e. sym (rows_injective (ledger c.done) l e);
  begin_committed = λ c. refl;
  begin_pending = λ c e. refl;
  exec_committed = λ s c. refl;
  exec_pending = λ s c e. refl;
  insert_committed = λ r c. refl;
  insert_pending = λ r c e. refl;
  commit_committed = λ c e. refl;
  commit_failed = λ c e. inl (absurd (true_ne_false e));
  rollback_committed = λ c. refl;
}

abbrev empty : Memory
empty = record { done = []; work = [] }

abbrev migration : ℕ → Bytes → Bytes → Migration
migration v name sql = record { version = pos v; name = name; sql = sql; data_bearing = false }

abbrev two : List Migration
two =
    migration 1 (codes "one") (codes "create a") ∷ migration 4 (codes "two") (codes "create b") ∷ []

abbrev bad_second : List Migration
bad_second =
    migration 1 (codes "one") (codes "create a") ∷ migration 4 (codes "two") (codes "bad") ∷ []

abbrev digest : Bytes
digest = codes "00112233445566778899aabbccddeeff00112233445566778899AABBCCDDEEFF"

abbrev receipt : ExportReceipt
receipt = record { created_at = day; sha256 = digest }

abbrev runner : Runner
runner = record { now = λ i. day + 5 + i; gate = some (some receipt); max_export_age = pos 0 }

abbrev options : ApplyOptions
options = record { waive_export = false; waiver_reason = [] }

receipt_test : validate_export_receipt receipt (day + 5) (pos 0) ≡ none
unfolding validate_export_receipt age_limit is_digest hex_decode hex_value
receipt_test = refl

apply_test :
    ((apply memory runner options two empty).0 ≡ none)
    × (length (apply memory runner options two empty).1.done ≡ 4)
unfolding apply apply_checked apply_created apply_reading apply_split apply_cleared apply_all
    apply_one validate_migrations scan_rows split_pending applied_name clear_export
    validate_export_receipt age_limit is_digest hex_decode hex_value bytes_eq is_blank
apply_test = (refl, refl)

stop_test :
    ((apply memory runner options bad_second empty).0 ≡ some (apply_failed (pos 4)))
    × (length (apply memory runner options bad_second empty).1.done ≡ 2)
unfolding apply apply_checked apply_created apply_reading apply_split apply_cleared apply_all
    apply_one validate_migrations scan_rows split_pending applied_name clear_export
    validate_export_receipt age_limit is_digest hex_decode hex_value bytes_eq is_blank
stop_test = (refl, refl)

validate_export_receipt-IsFresh_example : IsFresh receipt (day + 5) (age_limit (pos 0))
validate_export_receipt-IsFresh_example =
    validate_export_receipt-IsFresh receipt (day + 5) (pos 0) (unfold age_limit in omega arith)
      receipt_test

apply-apply_example :
    ((apply memory runner options two (apply memory runner options two empty).1).0 ≡ none)
    × ((apply memory runner options two (apply memory runner options two empty).1).1.done
        ≡ (apply memory runner options two empty).1.done)
apply-apply_example =
    apply-apply memory memory_laws runner runner options options two empty
      (ledger (apply memory runner options two empty).1.done) apply_test.0 refl refl

apply_changes : (apply memory runner options two empty).1.done ≢ []
apply_changes e =
    let none_left : length (apply memory runner options two empty).1.done ≡ 0 =
      ap (λ (l : List Write). length l) e in
    omega (arith, apply_test.1)

apply-IsFresh_example :
    ((false ≡ true) × (options.waiver_reason ≢ []))
    ⊎ ((held : ExportReceipt) × (runner.gate ≡ some (some held))
        × IsFresh held (day + 5) (age_limit (pos 0)))
apply-IsFresh_example =
    apply-IsFresh memory memory_laws runner options two empty (unfold age_limit in omega arith)
      apply_changes

abbrev write_one : Memory → Option Bytes × Memory
write_one c = (none, record c { work = c.work ++ statement (codes "insert") ∷ [] })

abbrev write_one_inside : StaysInside memory memory_laws {E = Bytes} write_one
write_one_inside = record {
  writes = λ c. statement (codes "insert") ∷ [];
  inside_committed = λ c. refl;
  inside_pending = λ c. refl;
}

validate_migrations_iff_example :
    (validate_migrations two ≡ none) ↔ (All IsAcceptable two × IsAscending two)
validate_migrations_iff_example = validate_migrations_iff two
