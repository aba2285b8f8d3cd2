-- ===== src/Auth.antt =====
-- backend/auth: refresh tokens and device sessions.
pub mod Tokens
pub mod Rotation
