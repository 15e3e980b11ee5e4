-- ===== src/Accounts.antt =====
-- data-adapters/src/adapters/auth.py: passwords, login accounts and their sessions.
pub mod Password
pub mod Users
pub mod Sessions
pub mod Calls
pub mod Revoked
