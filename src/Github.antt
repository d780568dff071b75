-- ===== src/Github.antt =====
-- github/: the budgeted minting of GitHub App installation tokens.
pub mod Codes
pub mod Permissions
pub mod Client
