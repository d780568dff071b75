-- ===== src/Operator.antt =====
-- foundryoperator/: the canonical JSON of a proof, and the proof's signing.
pub mod Canonical
pub mod Proof
pub mod Tests
