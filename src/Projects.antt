-- ===== src/Projects.antt =====
-- fulcrumprojects/: codes, the client of /api/v2, and its retry.
pub mod Codes
pub mod Client
pub mod Retry
pub mod Formats
pub mod Builders
pub mod Tests
