-- ===== src/Pg/Apply/Atomic.antt =====
-- What Runner.Apply of pg/runner.go commits, whatever fails: the missing migrations up to some point,
-- each with its statement and its ledger row.
use packages_go.Prelude.{
  ℕ, suc, ◌+◌, ◌≤◌, ◌≡◌, ◌≢◌, ◌⊎◌, inl, inr, refl, sym, ◌∙◌, ap, Bool, true, false, List, [], ◌∷◌,
  ◌++◌, append-nil, append_assoc, Option, none, some, Bytes, arith, ℤ, length, take,
}
use packages_go.Pg.Migration.{Migration, ApplyOptions, MigrationError, validate_migrations}
use packages_go.Pg.Database.{
  Pool, Transactional, Row, Reading, query_failed, scan_failed, iterate_failed, rows, Write,
  statement, ledger_row, ledger,
}
use packages_go.Pg.Apply.{
  ApplyError, Runner, Cleared, blocked, waived, verified, Split, drifted, pending, scan_rows,
  split_pending, clear_export, row_of, Outcome, attempt, keep, and_then, apply_one, apply_all,
  apply_cleared, apply_split, apply_reading, apply_created, apply_checked, apply,
}
use packages_go.Pg.Apply.Pending.{missing, split_pending_sound}

-- The writes of one migration, and of a list of them from reading `i` of the clock on.
abbrev pub unit_of : Row → Migration → List Write
unit_of row m = statement m.sql ∷ ledger_row row ∷ []

abbrev pub units : Runner → ApplyOptions → Cleared → ℕ → List Migration → List Write
units r options cleared i [] = []
units r options cleared i (m ∷ ms) =
    unit_of (row_of options cleared (r.now i) m) m ++ units r options cleared (i + 1) ms

module _ (p : Pool) (t : Transactional p) where
  open p use {Conn, create_ledger, read_ledger, begin, exec, insert, commit, rollback}
  open t use {committed}

  -- All of `w` is committed on top of `before`, or an error is reported and all or nothing is.
  abbrev Whole : List Write → List Write → Outcome p → Type 0
  Whole before w out =
      ((out.0 ≡ none) × (committed out.1 ≡ before ++ w))
      ⊎ ((out.0 ≢ none) × ((committed out.1 ≡ before) ⊎ (committed out.1 ≡ before ++ w)))

  attempt-Whole :
      (before w : List Write) (o : Bool × Conn) (e : ApplyError) (undo : Conn → Conn)
      (next : Conn → Outcome p)
      → (o.0 ≡ true → Whole before w (next o.1))
      → (o.0 ≡ false → (committed (undo o.1) ≡ before) ⊎ (committed (undo o.1) ≡ before ++ w))
      → Whole before w (attempt p o e undo next)
  attempt-Whole before w (true, c) e undo next good bad = good refl
  attempt-Whole before w (false, c) e undo next good bad = inr (λ h. cc, bad refl)

  commit-Whole :
      (before w : List Write) (c : Conn) (e : ApplyError)
      → committed c ≡ before
      → t.pending c ≡ w
      → Whole before w (attempt p (commit c) e (keep p) (λ d. (none, d)))
  commit-Whole before w c e h k =
      attempt-Whole before w (commit c) e (keep p) (λ d. (none, d))
        (λ done. inl (refl, t.commit_committed c done ∙ rw (h, k)))
        (λ failed. rw (← h, ← k) (t.commit_failed c failed))

  -- A migration that reports success is committed whole; one that reports an error is committed whole
  -- or not at all.
  apply_one-Whole :
      (row : Row) (m : Migration) (c : Conn)
      → Whole (committed c) (unit_of row m) (apply_one p row m c)
  unfolding apply_one
  apply_one-Whole row m c =
      let begun = begin c in
      let ran = exec m.sql begun.1 in
      let kept = insert row ran.1 in
      let c1 : committed begun.1 ≡ committed c = t.begin_committed c in
      let c2 : committed ran.1 ≡ committed c = t.exec_committed m.sql begun.1 ∙ c1 in
      let c3 : committed kept.1 ≡ committed c = t.insert_committed row ran.1 ∙ c2 in
      attempt-Whole (committed c) (unit_of row m) begun _ _ _
        (λ b.
          attempt-Whole (committed c) (unit_of row m) ran _ _ _
            (λ r.
              attempt-Whole (committed c) (unit_of row m) kept _ _ _
                (λ k. commit-Whole (committed c) (unit_of row m) kept.1 _ c3 (
                  t.insert_pending row ran.1 k
                  ∙ ap (λ l. l ++ ledger_row row ∷ []) (t.exec_pending m.sql begun.1 r)
                  ∙ ap (λ l. (l ++ statement m.sql ∷ []) ++ ledger_row row ∷ [])
                      (t.begin_pending c b)))
                (λ k. inl (t.rollback_committed kept.1 ∙ c3)))
            (λ r. inl (t.rollback_committed ran.1 ∙ c2)))
        (λ b. inl c1)

  -- The first `k` of the migrations are committed, and all of them on success.
  pub record Prefix (r : Runner) (options : ApplyOptions) (cleared : Cleared) (i : ℕ)
      (ms : List Migration) (before : List Write) (out : Outcome p) : Type 0 where
    pub k : ℕ
    pub within : k ≤ length ms
    pub writes : committed out.1 ≡ before ++ units r options cleared i (take k ms)
    pub complete : out.0 ≡ none → k ≡ length ms

  Prefix-none :
      (r : Runner) (options : ApplyOptions) (cleared : Cleared) (i : ℕ) (ms : List Migration)
      (before : List Write) (out : Outcome p)
      → committed out.1 ≡ before
      → (out.0 ≡ none → ms ≡ [])
      → Prefix r options cleared i ms before out
  Prefix-none r options cleared i ms before out e h = record {
    k = 0;
    within = omega arith;
    writes = e ∙ sym (append-nil before);
    complete = λ d. rw (h d);
  }

  and_then-Prefix :
      (r : Runner) (options : ApplyOptions) (cleared : Cleared) (i : ℕ) (m : Migration)
      (ms : List Migration) (before : List Write) (o : Outcome p)
      → Whole before (unit_of (row_of options cleared (r.now i) m) m) o
      → ((d : Conn)
          → Prefix r options cleared
              (i + 1)
              ms
              (committed d)
              (apply_all p r options cleared (i + 1) ms d))
      → Prefix r options cleared i
          (m ∷ ms)
          before
          (and_then p o (apply_all p r options cleared (i + 1) ms))
  and_then-Prefix r options cleared i m ms before (none, d) (inl (e, w)) rest =
      let done = rest d in
      record {
        k = suc done.k;
        within = omega (arith, done.within);
        writes =
            done.writes
            ∙ ap (λ l. l ++ units r options cleared (i + 1) (take done.k ms)) w
            ∙ append_assoc before _ _;
        complete = λ h. ap suc (done.complete h);
      }
  and_then-Prefix r options cleared i m ms before (none, d) (inr (e, w)) rest = absurd (e refl)
  and_then-Prefix r options cleared i m ms before (some x, d) (inl (e, w)) rest = cc
  and_then-Prefix r options cleared i m ms before (some x, d) (inr (e, inl w)) rest =
      Prefix-none r options cleared i (m ∷ ms) before (some x, d) w (λ h. cc)
  and_then-Prefix r options cleared i m ms before (some x, d) (inr (e, inr w)) rest = record {
    k = 1;
    within = omega arith;
    writes = w;
    complete = λ h. cc;
  }

  apply_all-Prefix :
      (r : Runner) (options : ApplyOptions) (cleared : Cleared) (i : ℕ) (ms : List Migration)
      (c : Conn)
      → Prefix r options cleared i ms (committed c) (apply_all p r options cleared i ms c)
  unfolding apply_all
  apply_all-Prefix r options cleared i [] c =
      Prefix-none r options cleared i [] (committed c) _ refl (λ d. refl)
  apply_all-Prefix r options cleared i (m ∷ ms) c =
      and_then-Prefix r options cleared i m ms (committed c)
        (apply_one p (row_of options cleared (r.now i) m) m c)
        (apply_one-Whole (row_of options cleared (r.now i) m) m c)
        (apply_all-Prefix r options cleared (i + 1) ms)

  apply_cleared-Prefix :
      (r : Runner) (options : ApplyOptions) (cleared : Cleared) (ms : List Migration) (c : Conn)
      → Prefix r options cleared 1 ms (committed c) (apply_cleared p r options cleared ms c)
  unfolding apply_cleared
  apply_cleared-Prefix r options (blocked e) ms c =
      Prefix-none r options (blocked e) 1 ms (committed c) (some e, c) refl (λ h. cc)
  apply_cleared-Prefix r options waived ms c = apply_all-Prefix r options waived 1 ms c
  apply_cleared-Prefix r options (verified receipt) ms c =
      apply_all-Prefix r options (verified receipt) 1 ms c

  apply_split-Prefix :
      (r : Runner) (options : ApplyOptions) (s : Split) (q : List Migration) (c : Conn)
      → ((u : List Migration) → s ≡ pending u → u ≡ q)
      → Prefix r options (clear_export r options) 1 q (committed c) (apply_split p r options s c)
  unfolding apply_split
  apply_split-Prefix r options (drifted v) q c h =
      Prefix-none r options _ 1 q (committed c) _ refl (λ e. cc)
  apply_split-Prefix r options (pending []) q c h =
      Prefix-none r options _ 1 q (committed c) _ refl (λ e. sym (h [] refl))
  apply_split-Prefix r options (pending (m ∷ ms)) q c h =
      rw (← h (m ∷ ms) refl) (apply_cleared-Prefix r options _ (m ∷ ms) c)

  apply_reading-Prefix :
      (r : Runner) (options : ApplyOptions) (ms : List Migration) (o : Reading × Conn)
      (before : List Write)
      → committed o.1 ≡ before
      → ((l : List (ℤ × Bytes)) → o.0 ≡ rows l → l ≡ ledger before)
      → Prefix r options
          (clear_export r options)
          1
          (missing (scan_rows [] (ledger before)) ms)
          before
          (apply_reading p r options ms o)
  unfolding apply_reading
  apply_reading-Prefix r options ms (query_failed, c) before h g =
      Prefix-none r options _ 1 _ before _ h (λ e. cc)
  apply_reading-Prefix r options ms (scan_failed, c) before h g =
      Prefix-none r options _ 1 _ before _ h (λ e. cc)
  apply_reading-Prefix r options ms (iterate_failed, c) before h g =
      Prefix-none r options _ 1 _ before _ h (λ e. cc)
  apply_reading-Prefix r options ms (rows l, c) before h g = rw (← h) (
      apply_split-Prefix r options (split_pending (scan_rows [] l) ms) _ c (λ u e.
        (split_pending_sound (scan_rows [] l) ms u e).0
        ∙ ap (λ k. missing (scan_rows [] k) ms) (g l refl ∙ ap ledger (sym h))))

  apply_created-Prefix :
      (r : Runner) (options : ApplyOptions) (ms : List Migration) (o : Bool × Conn)
      (before : List Write)
      → committed o.1 ≡ before
      → Prefix r options
          (clear_export r options)
          1
          (missing (scan_rows [] (ledger before)) ms)
          before
          (apply_created p r options ms o)
  unfolding apply_created
  apply_created-Prefix r options ms (false, c) before h =
      Prefix-none r options _ 1 _ before _ h (λ e. cc)
  apply_created-Prefix r options ms (true, c) before h =
      apply_reading-Prefix r options ms (read_ledger c) before (t.read_committed c ∙ h)
        (λ l e. t.read_rows c l e ∙ ap ledger h)

  apply_checked-Prefix :
      (r : Runner) (options : ApplyOptions) (ms : List Migration) (o : Option MigrationError)
      (c : Conn)
      → Prefix r options
          (clear_export r options)
          1
          (missing (scan_rows [] (ledger (committed c))) ms)
          (committed c)
          (apply_checked p r options ms o c)
  unfolding apply_checked
  apply_checked-Prefix r options ms (some e) c =
      Prefix-none r options _ 1 _ (committed c) _ refl (λ h. cc)
  apply_checked-Prefix r options ms none c =
      apply_created-Prefix r options ms (create_ledger c) (committed c) (t.create_committed c)

  pub apply-Prefix :
      (r : Runner) (options : ApplyOptions) (ms : List Migration) (c : Conn)
      → Prefix r options
          (clear_export r options)
          1
          (missing (scan_rows [] (ledger (committed c))) ms)
          (committed c)
          (apply p r options ms c)
  unfolding apply
  apply-Prefix r options ms c = apply_checked-Prefix r options ms (validate_migrations ms) c
