-- ===== src/Packaging.antt =====
-- packaging/: signed artifact directories.
pub mod Paths
pub mod Files
pub mod Manifest
pub mod Seal
pub mod Verify
pub mod Tests
