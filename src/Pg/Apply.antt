-- ===== src/Pg/Apply.antt =====
-- Runner.Apply of pg/runner.go over any database with the operations of Database. The gate's answer
-- and the readings of the clock are arguments.
pub mod Pending
pub mod Atomic
pub mod Rerun
pub mod Gate
use packages_go.Prelude.{
  ℕ, ◌+◌, Bool, true, false, List, [], ◌∷◌, ◌++◌, Option, none, some, Bytes, is_empty, bytes_eq,
  eqb_ℤ, if◌then◌else◌, ℤ,
}
use packages_go.Pg.Migration.{Migration, ApplyOptions, MigrationError, validate_migrations}
use packages_go.Pg.Export.{ExportReceipt, ReceiptError, validate_export_receipt}
use packages_go.Pg.Database.{
  Pool, Row, Reading, query_failed, scan_failed, iterate_failed, rows, Write, statement, ledger_row,
}

-- One constructor for each return of an error.
pub data ApplyError : Type 0 where
  bad_migrations : MigrationError → ApplyError
  create_failed read_failed scan_error iterate_error : ApplyError
  drift : ℤ → ApplyError
  waiver_reason_required export_required verify_failed : ApplyError
  bad_receipt : ReceiptError → ApplyError
  begin_failed apply_failed record_failed commit_error : ℤ → ApplyError

-- `gate` is `none` for a nil Gate, and else what Verify answers, `none` for its error. `now` is the
-- clock: reading 0 is for the receipt, and a later one for each migration that is applied.
pub record Runner : Type 0 where
  pub now : ℕ → ℕ
  pub gate : Option (Option ExportReceipt)
  pub max_export_age : ℤ

-- The map of the ledger's rows: a later row of a version covers an earlier one.
unfoldable pub scan_rows : List (ℤ × Bytes) → List (ℤ × Bytes) → List (ℤ × Bytes)
scan_rows applied [] = applied
scan_rows applied (r ∷ rs) = scan_rows (r ∷ applied) rs

unfoldable pub applied_name : ℤ → List (ℤ × Bytes) → Option Bytes
applied_name v [] = none
applied_name v ((w, name) ∷ applied) = if eqb_ℤ w v then some name else applied_name v applied

pub data Split : Type 0 where
  drifted : ℤ → Split
  pending : List Migration → Split

abbrev prepend : Migration → Split → Split
prepend m (drifted v) = drifted v
prepend m (pending ms) = pending (m ∷ ms)

-- The loop that sets the pending migrations apart.
unfoldable pub split_pending : List (ℤ × Bytes) → List Migration → Split
split_pending applied [] = pending []
split_pending applied (m ∷ ms) = elim (applied_name m.version applied) [
  | none ↦ prepend m (split_pending applied ms)
  | some name ↦ if bytes_eq name m.name then split_pending applied ms else drifted m.version
]

-- What stands behind the run: an error, a waiver, or a verified export.
pub data Cleared : Type 0 where
  blocked : ApplyError → Cleared
  waived : Cleared
  verified : ExportReceipt → Cleared

abbrev receipt_verdict : ExportReceipt → Option ReceiptError → Cleared
receipt_verdict receipt none = verified receipt
receipt_verdict receipt (some e) = blocked (bad_receipt e)

abbrev gate_verdict : Runner → Option (Option ExportReceipt) → Cleared
gate_verdict r none = blocked export_required
gate_verdict r (some none) = blocked verify_failed
gate_verdict r (some (some receipt)) =
    receipt_verdict receipt (validate_export_receipt receipt (r.now 0) r.max_export_age)

unfoldable pub clear_export : Runner → ApplyOptions → Cleared
clear_export r options =
    if options.waive_export
    then if is_empty options.waiver_reason then blocked waiver_reason_required else waived
    else gate_verdict r r.gate

abbrev created_of : Cleared → Option ℕ
created_of (verified receipt) = some receipt.created_at
created_of _ = none

abbrev sha256_of : Cleared → Option Bytes
sha256_of (verified receipt) = some receipt.sha256
sha256_of _ = none

-- The row that the INSERT writes.
abbrev pub row_of : ApplyOptions → Cleared → ℕ → Migration → Row
row_of options cleared now m = record {
  version = m.version;
  name = m.name;
  applied_at = now;
  export_created_at = created_of cleared;
  export_sha256 = sha256_of cleared;
  waiver_reason = options.waiver_reason;
}

module _ (p : Pool) where
  open p use {Conn, create_ledger, read_ledger, begin, exec, insert, commit, rollback}

  -- The nil error is `none`.
  abbrev pub Outcome : Type 0
  Outcome = Option ApplyError × Conn

  -- A call that returns its error after `undo`, and otherwise goes on.
  abbrev attempt : Bool × Conn → ApplyError → (Conn → Conn) → (Conn → Outcome) → Outcome
  attempt (true, c) e undo next = next c
  attempt (false, c) e undo next = (some e, undo c)

  abbrev keep : Conn → Conn
  keep c = c

  abbrev roll_back : Conn → Conn
  roll_back c = (rollback c).1

  -- One round of the loop over the pending migrations.
  unfoldable pub apply_one : Row → Migration → Conn → Outcome
  apply_one row m c = attempt (begin c) (begin_failed m.version) keep λ c1.
      attempt (exec m.sql c1) (apply_failed m.version) roll_back λ c2.
        attempt (insert row c2) (record_failed m.version) roll_back
          λ c3. attempt (commit c3) (commit_error m.version) keep λ c4. (none, c4)

  abbrev and_then : Outcome → (Conn → Outcome) → Outcome
  and_then (none, c) next = next c
  and_then (some e, c) next = (some e, c)

  -- The loop; `i` is the next reading of the clock.
  unfoldable pub apply_all : Runner → ApplyOptions → Cleared → ℕ → List Migration → Conn → Outcome
  apply_all r options cleared i [] c = (none, c)
  apply_all r options cleared i (m ∷ ms) c =
      and_then (apply_one (row_of options cleared (r.now i) m) m c)
        (apply_all r options cleared (i + 1) ms)

  unfoldable pub apply_cleared : Runner → ApplyOptions → Cleared → List Migration → Conn → Outcome
  apply_cleared r options (blocked e) ms c = (some e, c)
  apply_cleared r options waived ms c = apply_all r options waived 1 ms c
  apply_cleared r options (verified receipt) ms c = apply_all r options (verified receipt) 1 ms c

  unfoldable pub apply_split : Runner → ApplyOptions → Split → Conn → Outcome
  apply_split r options (drifted v) c = (some (drift v), c)
  apply_split r options (pending []) c = (none, c)
  apply_split r options (pending (m ∷ ms)) c =
      apply_cleared r options (clear_export r options) (m ∷ ms) c

  unfoldable pub apply_reading : Runner → ApplyOptions → List Migration → Reading × Conn → Outcome
  apply_reading r options ms (query_failed, c) = (some read_failed, c)
  apply_reading r options ms (scan_failed, c) = (some scan_error, c)
  apply_reading r options ms (iterate_failed, c) = (some iterate_error, c)
  apply_reading r options ms (rows l, c) =
      apply_split r options (split_pending (scan_rows [] l) ms) c

  unfoldable pub apply_created : Runner → ApplyOptions → List Migration → Bool × Conn → Outcome
  apply_created r options ms o =
      attempt o create_failed keep λ c. apply_reading r options ms (read_ledger c)

  unfoldable pub apply_checked :
      Runner → ApplyOptions → List Migration → Option MigrationError → Conn → Outcome
  apply_checked r options ms (some e) c = (some (bad_migrations e), c)
  apply_checked r options ms none c = apply_created r options ms (create_ledger c)

  unfoldable pub apply : Runner → ApplyOptions → List Migration → Conn → Outcome
  apply r options ms c = apply_checked r options ms (validate_migrations ms) c
