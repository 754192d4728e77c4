-- ===== src/Safety.antt =====
-- internal/safety: blocks, reports and safety settings.
pub mod Model
pub mod Blocks
pub mod Targets
pub mod Reports
pub mod Counts
pub mod Counted
pub mod Reads
pub mod Blocked
pub mod Tests
pub mod BlockSet
pub mod Unblocked
