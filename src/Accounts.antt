-- ===== src/Accounts.antt =====
-- backend/user: the roles of a user and the password, and the middleware that compares the role
-- version of an access token with the user's.
pub mod Roles
pub mod Passwords
pub mod Stale
pub mod Kept
