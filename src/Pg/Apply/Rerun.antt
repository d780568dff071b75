-- ===== src/Pg/Apply/Rerun.antt =====
-- A run of Runner.Apply of pg/runner.go that succeeds records every migration, and the next run of the
-- same migrations has nothing to do.
use mathlib.Core.Path.{subst}
use packages_go.Prelude.{
  ℕ, ◌+◌, ◌≡◌, refl, sym, ◌∙◌, ap, Bool, true, false, List, [], ◌∷◌, ◌++◌, Option, none, some,
  Bytes, All, ℤ, length, take,
}
use packages_go.Pg.Migration.{Migration, ApplyOptions, MigrationError, validate_migrations}
use packages_go.Pg.Migration.Valid.{validate_migrations_iff}
use packages_go.Pg.Database.{
  Pool, Transactional, Reading, query_failed, scan_failed, iterate_failed, rows, Write, statement,
  ledger_row, ledger,
}
use packages_go.Pg.Apply.{
  Runner, Cleared, Split, drifted, pending, scan_rows, applied_name, split_pending, clear_export,
  apply_split, apply_reading, apply_created, apply_checked, apply,
}
use packages_go.Pg.Apply.Pending.{
  missing, split_pending_sound, split_pending-Recorded, Recorded, Recorded-missing, pairs,
}
use packages_go.Pg.Apply.Atomic.{units, apply-Prefix}

ledger-append : (a b : List Write) → ledger (a ++ b) ≡ ledger a ++ ledger b
ledger-append [] b = refl
ledger-append (statement s ∷ a) b = ledger-append a b
ledger-append (ledger_row r ∷ a) b = ap (◌∷◌ (r.version, r.name)) (ledger-append a b)

ledger-units :
    (r : Runner) (options : ApplyOptions) (cleared : Cleared) (i : ℕ) (ms : List Migration)
    → ledger (units r options cleared i ms) ≡ pairs ms
ledger-units r options cleared i [] = refl
ledger-units r options cleared i (m ∷ ms) =
    ap (◌∷◌ (m.version, m.name)) (ledger-units r options cleared (i + 1) ms)

take-length {ℓ} : {A : Type ℓ} (l : List A) → take (length l) l ≡ l
take-length [] = refl
take-length (x ∷ l) = ap (◌∷◌ x) (take-length l)

scan_rows-append : (a l k : List (ℤ × Bytes)) → scan_rows a (l ++ k) ≡ scan_rows (scan_rows a l) k
unfolding scan_rows
scan_rows-append a [] k = refl
scan_rows-append a (x ∷ l) k = scan_rows-append (x ∷ a) l k

same_everywhere :
    (a : List (ℤ × Bytes)) (ms : List Migration)
    → All (λ (m : Migration). applied_name m.version a ≡ applied_name m.version a) ms
same_everywhere a [] = tt
same_everywhere a (m ∷ ms) = (refl, same_everywhere a ms)

module _ (p : Pool) (t : Transactional p) where
  open p use {Conn, create_ledger, read_ledger}
  open t use {committed}

  -- The ledger that the run read, and the split that it made.
  record Went (ms : List Migration) (l : List (ℤ × Bytes)) : Type 0 where
    q : List Migration
    split : split_pending (scan_rows [] l) ms ≡ pending q

  apply_split-none :
      (r : Runner) (options : ApplyOptions) (s : Split) (c : Conn)
      → (apply_split p r options s c).0 ≡ none
      → (q : List Migration) × (s ≡ pending q)
  unfolding apply_split
  apply_split-none r options (drifted v) c e = cc
  apply_split-none r options (pending q) c e = (q, refl)

  apply_reading-none :
      (r : Runner) (options : ApplyOptions) (ms : List Migration) (o : Reading × Conn)
      → (apply_reading p r options ms o).0 ≡ none
      → (l : List (ℤ × Bytes)) × (o.0 ≡ rows l) × Went ms l
  unfolding apply_reading
  apply_reading-none r options ms (query_failed, c) e = cc
  apply_reading-none r options ms (scan_failed, c) e = cc
  apply_reading-none r options ms (iterate_failed, c) e = cc
  apply_reading-none r options ms (rows l, c) e =
      let (q, split) = apply_split-none r options (split_pending (scan_rows [] l) ms) c e in
      (l, refl, record { q = q; split = split })

  apply_created-none :
      (r : Runner) (options : ApplyOptions) (ms : List Migration) (o : Bool × Conn)
      → (apply_created p r options ms o).0 ≡ none
      → Went ms (ledger (committed o.1))
  unfolding apply_created
  apply_created-none r options ms (false, c) e = cc
  apply_created-none r options ms (true, c) e =
      let (l, read, went) = apply_reading-none r options ms (read_ledger c) e in
      subst (Went ms) (t.read_rows c l read) went

  apply_checked-none :
      (r : Runner) (options : ApplyOptions) (ms : List Migration) (o : Option MigrationError)
      (c : Conn)
      → (apply_checked p r options ms o c).0 ≡ none
      → (o ≡ none) × Went ms (ledger (committed c))
  unfolding apply_checked
  apply_checked-none r options ms (some x) c e = cc
  apply_checked-none r options ms none c e =
      (refl, rw (← t.create_committed c) (apply_created-none r options ms (create_ledger c) e))

  -- The map of the ledger after a run without an error.
  scan_rows-apply :
      (r : Runner) (options : ApplyOptions) (ms : List Migration) (c : Conn)
      → (apply p r options ms c).0 ≡ none
      → let before = scan_rows [] (ledger (committed c)) in
        scan_rows [] (ledger (committed (apply p r options ms c).1))
        ≡ scan_rows before (pairs (missing before ms))
  scan_rows-apply r options ms c e =
      let before = scan_rows [] (ledger (committed c)) in
      let cleared = clear_export r options in
      let run = apply-Prefix p t r options ms c in
      let all : take run.k (missing before ms) ≡ missing before ms =
        ap (λ k. take k (missing before ms)) (run.complete e) ∙ take-length (missing before ms) in
      ap (λ w. scan_rows [] (ledger w)) run.writes
      ∙ ap (λ l. scan_rows [] l) (ledger-append (committed c) _)
      ∙ scan_rows-append [] (ledger (committed c)) _
      ∙ ap (scan_rows before) (ledger-units r options cleared 1 _ ∙ ap pairs all)

  -- After a run without an error, every migration is in the ledger under its own name.
  pub apply-Recorded :
      (r : Runner) (options : ApplyOptions) (ms : List Migration) (c : Conn)
      → (apply p r options ms c).0 ≡ none
      → All (Recorded (scan_rows [] (ledger (committed (apply p r options ms c).1)))) ms
  unfolding apply
  apply-Recorded r options ms c e =
      let (valid, went) = apply_checked-none r options ms (validate_migrations ms) c e in
      let before = scan_rows [] (ledger (committed c)) in
      let agree = (split_pending_sound before ms went.q went.split).1 in
      let ascending = ((validate_migrations_iff ms).0 valid).1 in
      subst (λ a. All (Recorded a) ms) (sym (scan_rows-apply r options ms c e))
        (Recorded-missing before before ms ascending agree (same_everywhere before ms))

  apply_reading-Recorded :
      (r : Runner) (options : ApplyOptions) (ms : List Migration) (o : Reading × Conn)
      (l : List (ℤ × Bytes))
      → o.0 ≡ rows l
      → All (Recorded (scan_rows [] l)) ms
      → apply_reading p r options ms o ≡ (none, o.1)
  unfolding apply_reading apply_split
  apply_reading-Recorded r options ms (query_failed, c) l e h = absurd (cc)
  apply_reading-Recorded r options ms (scan_failed, c) l e h = absurd (cc)
  apply_reading-Recorded r options ms (iterate_failed, c) l e h = absurd (cc)
  apply_reading-Recorded r options ms (rows k, c) l e h =
      let same : k ≡ l = cc in rw (same, split_pending-Recorded (scan_rows [] l) ms h)

  apply_created-Recorded :
      (r : Runner) (options : ApplyOptions) (ms : List Migration) (o : Bool × Conn)
      (l : List (ℤ × Bytes))
      → o.0 ≡ true
      → (read_ledger o.1).0 ≡ rows l
      → All (Recorded (scan_rows [] l)) ms
      → apply_created p r options ms o ≡ (none, (read_ledger o.1).1)
  unfolding apply_created
  apply_created-Recorded r options ms (false, c) l created read h = absurd (cc)
  apply_created-Recorded r options ms (true, c) l created read h =
      apply_reading-Recorded r options ms (read_ledger c) l read h

  rerun :
      (r : Runner) (options : ApplyOptions) (ms : List Migration) (d : Conn) (l : List (ℤ × Bytes))
      → validate_migrations ms ≡ none
      → All (Recorded (scan_rows [] (ledger (committed d)))) ms
      → (create_ledger d).0 ≡ true
      → (read_ledger (create_ledger d).1).0 ≡ rows l
      → apply p r options ms d ≡ (none, (read_ledger (create_ledger d).1).1)
  unfolding apply apply_checked
  rerun r options ms d l valid recorded created read =
      let held : l ≡ ledger (committed d) =
        t.read_rows (create_ledger d).1 l read ∙ ap ledger (t.create_committed d) in
      rw valid (
        apply_created-Recorded r options ms (create_ledger d) l created read
          (subst (λ k. All (Recorded (scan_rows [] k)) ms) (sym held) recorded))

  apply-valid :
      (r : Runner) (options : ApplyOptions) (ms : List Migration) (c : Conn)
      → (apply p r options ms c).0 ≡ none
      → validate_migrations ms ≡ none
  unfolding apply
  apply-valid r options ms c e = (apply_checked-none r options ms (validate_migrations ms) c e).0

  -- A second run of the same migrations, under any gate and options, reports no error and commits
  -- nothing, as long as the ledger can be read.
  pub apply-apply :
      (r again : Runner) (options more : ApplyOptions) (ms : List Migration) (c : Conn)
      (l : List (ℤ × Bytes))
      → (apply p r options ms c).0 ≡ none
      → (create_ledger (apply p r options ms c).1).0 ≡ true
      → (read_ledger (create_ledger (apply p r options ms c).1).1).0 ≡ rows l
      → ((apply p again more ms (apply p r options ms c).1).0 ≡ none)
        × (committed (apply p again more ms (apply p r options ms c).1).1
            ≡ committed (apply p r options ms c).1)
  apply-apply r again options more ms c l e created read =
      let d = (apply p r options ms c).1 in
      let second =
        rerun again more ms d l (apply-valid r options ms c e) (apply-Recorded r options ms c e)
          created read in
      (
        ap (λ o. o.0) second,
        ap (λ o. committed o.1) second
            ∙ t.read_committed (create_ledger d).1
            ∙ t.create_committed d,
      )
