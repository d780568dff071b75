-- ===== src/Auth.antt =====
-- auth/: the signing keys of an issuer, the verification of its access tokens, and local redirects.
pub mod Codes
pub mod Keys
pub mod Subject
pub mod Claims
pub mod Verify
pub mod Routes
pub mod Tests
