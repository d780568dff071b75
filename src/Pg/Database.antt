-- ===== src/Pg/Database.antt =====
-- The database behind pg/runner.go and pg/tx.go (pgx, which is not part of the repository): its
-- operations, and what the code relies on. `true` is success.
use packages_go.Prelude.{◌≡◌, ◌⊎◌, Bool, true, false, List, [], ◌∷◌, ◌++◌, Option, Bytes, ℕ, ℤ}

-- A row of packages_go_schema_migrations.
pub record Row : Type 0 where
  pub version : ℤ
  pub name : Bytes
  pub applied_at : ℕ
  pub export_created_at : Option ℕ
  pub export_sha256 : Option Bytes
  pub waiver_reason : Bytes

-- What the ledger query gives, and where reading it can fail.
pub data Reading : Type 0 where
  query_failed scan_failed iterate_failed : Reading
  rows : List (ℤ × Bytes) → Reading

pub record Pool : Type 1 where
  pub Conn : Type 0
  pub create_ledger : Conn → Bool × Conn
  pub read_ledger : Conn → Reading × Conn
  pub begin : Conn → Bool × Conn
  pub exec : Bytes → Conn → Bool × Conn
  pub insert : Row → Conn → Bool × Conn
  pub commit : Conn → Bool × Conn
  pub rollback : Conn → Bool × Conn

-- One effect inside a transaction.
pub data Write : Type 0 where
  statement : Bytes → Write
  ledger_row : Row → Write

abbrev pub ledger : List Write → List (ℤ × Bytes)
ledger [] = []
ledger (statement s ∷ l) = ledger l
ledger (ledger_row r ∷ l) = (r.version, r.name) ∷ ledger l

-- Transactions as PostgreSQL documents them. A commit that reports an error may still have happened.
pub record Transactional (p : Pool) : Type 1 where
  pub committed : p.Conn → List Write
  pub pending : p.Conn → List Write
  pub create_committed : (c : p.Conn) → committed (p.create_ledger c).1 ≡ committed c
  pub read_committed : (c : p.Conn) → committed (p.read_ledger c).1 ≡ committed c
  pub read_rows :
      (c : p.Conn) (l : List (ℤ × Bytes)) → (p.read_ledger c).0 ≡ rows l → l ≡ ledger (committed c)
  pub begin_committed : (c : p.Conn) → committed (p.begin c).1 ≡ committed c
  pub begin_pending : (c : p.Conn) → (p.begin c).0 ≡ true → pending (p.begin c).1 ≡ []
  pub exec_committed : (s : Bytes) (c : p.Conn) → committed (p.exec s c).1 ≡ committed c
  pub exec_pending :
      (s : Bytes) (c : p.Conn)
      → (p.exec s c).0 ≡ true
      → pending (p.exec s c).1 ≡ pending c ++ statement s ∷ []
  pub insert_committed : (r : Row) (c : p.Conn) → committed (p.insert r c).1 ≡ committed c
  pub insert_pending :
      (r : Row) (c : p.Conn)
      → (p.insert r c).0 ≡ true
      → pending (p.insert r c).1 ≡ pending c ++ ledger_row r ∷ []
  pub commit_committed :
      (c : p.Conn) → (p.commit c).0 ≡ true → committed (p.commit c).1 ≡ committed c ++ pending c
  pub commit_failed :
      (c : p.Conn)
      → (p.commit c).0 ≡ false
      → (committed (p.commit c).1 ≡ committed c)
        ⊎ (committed (p.commit c).1 ≡ committed c ++ pending c)
  pub rollback_committed : (c : p.Conn) → committed (p.rollback c).1 ≡ committed c
