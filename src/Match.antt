-- ===== src/Match.antt =====
-- internal/match: what the two members of a match may do with it.
pub mod Unmatch
pub mod Closed
pub mod Limit
pub mod Tests
pub mod Views
pub mod Seen
pub mod Age
pub mod Shown
