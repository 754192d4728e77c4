-- ===== src/Discovery.antt =====
-- internal/discovery: likes and passes, and the matches that they make.
pub mod Model
pub mod Matching
pub mod Actions
pub mod Cases
pub mod Effect
pub mod Stored
pub mod Pairs
pub mod Mutual
pub mod Answers
pub mod LateBlock
pub mod Tests
pub mod Readiness
pub mod Preferences
pub mod RulesTests
pub mod Genders
pub mod Ranges
