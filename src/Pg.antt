-- ===== src/Pg.antt =====
-- pg/: ordered migrations with a version ledger and an export gate, and the transaction helper.
pub mod Migration
pub mod Export
pub mod Database
pub mod Apply
pub mod Transaction
pub mod Tests
