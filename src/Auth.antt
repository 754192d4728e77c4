-- ===== src/Auth.antt =====
-- internal/auth: sessions, their refresh tokens, and the end of an account.
pub mod Model
pub mod Sessions
pub mod Revoked
pub mod Closed
pub mod Final
pub mod StaysOut
pub mod Rotation
pub mod Tests
