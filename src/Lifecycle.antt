-- ===== src/Lifecycle.antt =====
-- lifecycle/: draining targets.
pub mod Drain
pub mod Signal
pub mod Tests
