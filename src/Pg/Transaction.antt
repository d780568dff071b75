-- ===== src/Pg/Transaction.antt =====
-- WithTx of pg/tx.go. The function runs inside the transaction, and reports its own error.
use packages_go.Prelude.{◌≡◌, ◌⊎◌, Bool, true, false, List, ◌++◌, Option, none, some}
use packages_go.Pg.Database.{Pool, Transactional, Write}

-- `E` is the type of the errors that the function returns.
pub data TxError (E : Type 0) : Type 0 where
  begin_error commit_error : TxError E
  failed : E → TxError E
  -- errors.Join of the function's error and the rollback's
  failed_twice : E → TxError E

module _ (p : Pool) {E : Type 0} where
  open p use {Conn, begin, commit, rollback}

  abbrev rolled_back : E → Bool × Conn → Option (TxError E) × Conn
  rolled_back e (true, c) = (some (failed e), c)
  rolled_back e (false, c) = (some (failed_twice e), c)

  abbrev committed_by : Bool × Conn → Option (TxError E) × Conn
  committed_by (true, c) = (none, c)
  committed_by (false, c) = (some commit_error, c)

  unfoldable pub finish : Option E × Conn → Option (TxError E) × Conn
  finish (some e, c) = rolled_back e (rollback c)
  finish (none, c) = committed_by (commit c)

  unfoldable pub begun : (Conn → Option E × Conn) → Bool × Conn → Option (TxError E) × Conn
  unfolding finish
  begun fn (false, c) = (some begin_error, c)
  begun fn (true, c) = finish (fn c)

  unfoldable pub with_tx : (Conn → Option E × Conn) → Conn → Option (TxError E) × Conn
  unfolding begun
  with_tx fn c = begun fn (begin c)

module _ (p : Pool) (t : Transactional p) {E : Type 0} where
  open p use {Conn, begin, commit, rollback}
  open t use {committed}

  -- A function that works inside the transaction: it appends writes and commits none.
  pub record StaysInside (fn : Conn → Option E × Conn) : Type 0 where
    pub writes : Conn → List Write
    pub inside_committed : (c : Conn) → committed (fn c).1 ≡ committed c
    pub inside_pending : (c : Conn) → t.pending (fn c).1 ≡ t.pending c ++ writes c

  -- What a transaction leaves: everything on success, nothing when the function fails, and all or
  -- nothing when the commit reports an error.
  pub record Atomic (c : Conn) (w : List Write) (out : Option (TxError E) × Conn) : Type 0 where
    pub succeeds : out.0 ≡ none → committed out.1 ≡ committed c ++ w
    pub fails :
        (e : E)
        → (out.0 ≡ some (failed e)) ⊎ (out.0 ≡ some (failed_twice e))
        → committed out.1 ≡ committed c
    pub all_or_nothing : (committed out.1 ≡ committed c) ⊎ (committed out.1 ≡ committed c ++ w)
