-- ===== src/Otp.antt =====
-- internal/otp: one-time codes, their limits, their delivery and their verification.
pub mod Model
pub mod Normalize
pub mod Verify
pub mod Attempts
pub mod Lockout
pub mod SingleUse
pub mod Races
pub mod Limits
pub mod Cooldown
pub mod Request
pub mod RoundTrip
pub mod Delivery
pub mod Tests
mod Scenarios
