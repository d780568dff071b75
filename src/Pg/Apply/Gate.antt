-- ===== src/Pg/Apply/Gate.antt =====
-- The export gate of Runner.Apply of pg/runner.go.
use packages_go.Prelude.{
  ◌<◌, ◌≡◌, ◌≢◌, ◌⊎◌, inl, inr, refl, ◌∙◌, ap, Bool, true, false, List, [], ◌∷◌, Option, none, some,
  arith,
}
use packages_go.Pg.Migration.{Migration, ApplyOptions, MigrationError, validate_migrations}
use packages_go.Pg.Export.{
  ExportReceipt, ReceiptError, IsFresh, age_limit, max_duration, validate_export_receipt,
  validate_export_receipt-IsFresh,
}
use packages_go.Pg.Database.{
  Pool, Transactional, Reading, query_failed, scan_failed, iterate_failed, rows,
}
use packages_go.Pg.Apply.{
  ApplyError, Runner, Cleared, blocked, waived, verified, Split, drifted, pending, clear_export,
  receipt_verdict, gate_verdict, apply_cleared, apply_split, apply_reading, apply_created,
  apply_checked, apply,
}

Cleared-cases :
    (x : Cleared)
    → ((e : ApplyError) × (x ≡ blocked e))
      ⊎ ((x ≡ waived) ⊎ ((receipt : ExportReceipt) × (x ≡ verified receipt)))
Cleared-cases (blocked e) = inl (e, refl)
Cleared-cases waived = inr (inl refl)
Cleared-cases (verified receipt) = inr (inr (receipt, refl))

clear_export-waived :
    (r : Runner) (options : ApplyOptions)
    → clear_export r options ≡ waived
    → (options.waive_export ≡ true) × (options.waiver_reason ≢ [])
unfolding clear_export
clear_export-waived r options e = (ground arith, ground arith)

receipt_verdict-verified :
    (receipt held : ExportReceipt) (o : Option ReceiptError)
    → receipt_verdict held o ≡ verified receipt
    → (held ≡ receipt) × (o ≡ none)
receipt_verdict-verified receipt held none e = (cc, refl)
receipt_verdict-verified receipt held (some x) e = cc

gate_verdict-verified :
    (r : Runner) (gate : Option (Option ExportReceipt)) (receipt : ExportReceipt)
    → gate_verdict r gate ≡ verified receipt
    → (gate ≡ some (some receipt))
      × (validate_export_receipt receipt (r.now 0) r.max_export_age ≡ none)
gate_verdict-verified r none receipt e = cc
gate_verdict-verified r (some none) receipt e = cc
gate_verdict-verified r (some (some held)) receipt e =
    let (same, passed) = receipt_verdict-verified receipt held _ e in
    (ap (λ x. some (some x)) same, rw (← same) passed)

clear_export-verified :
    (r : Runner) (options : ApplyOptions) (receipt : ExportReceipt)
    → clear_export r options ≡ verified receipt
    → gate_verdict r r.gate ≡ verified receipt
unfolding clear_export
clear_export-verified r options receipt e = ground arith

module _ (p : Pool) (t : Transactional p) where
  open p use {Conn, create_ledger, read_ledger}
  open t use {committed}

  module _ (r : Runner) (options : ApplyOptions) (x : ApplyError) where
    apply_split-blocked :
        (s : Split) (c : Conn)
        → clear_export r options ≡ blocked x
        → committed (apply_split p r options s c).1 ≡ committed c
    unfolding apply_split apply_cleared
    apply_split-blocked (drifted v) c b = refl
    apply_split-blocked (pending []) c b = refl
    apply_split-blocked (pending (m ∷ ms)) c b = rw (b, apply_cleared)

    apply_reading-blocked :
        (ms : List Migration) (o : Reading × Conn)
        → clear_export r options ≡ blocked x
        → committed (apply_reading p r options ms o).1 ≡ committed o.1
    unfolding apply_reading
    apply_reading-blocked ms (query_failed, c) b = refl
    apply_reading-blocked ms (scan_failed, c) b = refl
    apply_reading-blocked ms (iterate_failed, c) b = refl
    apply_reading-blocked ms (rows l, c) b = apply_split-blocked _ c b

    apply_created-blocked :
        (ms : List Migration) (o : Bool × Conn)
        → clear_export r options ≡ blocked x
        → committed (apply_created p r options ms o).1 ≡ committed o.1
    unfolding apply_created
    apply_created-blocked ms (false, c) b = refl
    apply_created-blocked ms (true, c) b =
        apply_reading-blocked ms (read_ledger c) b ∙ t.read_committed c

    apply_checked-blocked :
        (ms : List Migration) (o : Option MigrationError) (c : Conn)
        → clear_export r options ≡ blocked x
        → committed (apply_checked p r options ms o c).1 ≡ committed c
    unfolding apply_checked
    apply_checked-blocked ms (some e) c b = refl
    apply_checked-blocked ms none c b =
        apply_created-blocked ms (create_ledger c) b ∙ t.create_committed c

  -- Apply commits nothing unless the export is waived with a reason, or the gate's receipt is fresh
  -- by the first reading of the clock (for an age limit below the largest duration).
  pub apply-IsFresh :
      (r : Runner) (options : ApplyOptions) (ms : List Migration) (c : Conn)
      → age_limit r.max_export_age < max_duration
      → committed (apply p r options ms c).1 ≢ committed c
      → ((options.waive_export ≡ true) × (options.waiver_reason ≢ []))
        ⊎ ((receipt : ExportReceipt) × (r.gate ≡ some (some receipt))
            × IsFresh receipt (r.now 0) (age_limit r.max_export_age))
  unfolding apply
  apply-IsFresh r options ms c small changed = elim (Cleared-cases (clear_export r options)) [
    | inl (e, b) ↦
        absurd (changed (apply_checked-blocked r options e ms (validate_migrations ms) c b))
    | inr (inl w) ↦ inl (clear_export-waived r options w)
    | inr (inr (receipt, v)) ↦
        let (gate, passed) =
          gate_verdict-verified r r.gate receipt (clear_export-verified r options receipt v) in
        inr (
          receipt,
          gate,
          validate_export_receipt-IsFresh receipt (r.now 0) r.max_export_age small passed,
        )
  ]
