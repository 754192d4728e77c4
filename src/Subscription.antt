-- ===== src/Subscription.antt =====
-- internal/subscription: plans, manual payments, entitlements and daily usage.
pub mod Model
pub mod Entitlements
pub mod Usage
pub mod Daily
pub mod Requests
pub mod Review
pub mod Kept
pub mod Periods
pub mod Decisions
pub mod Tests
