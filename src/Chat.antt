-- ===== src/Chat.antt =====
-- internal/chat: messages, receipts and conversations.
pub mod Model
pub mod Send
pub mod Receipts
pub mod Hub
pub mod Messages
pub mod Pages
pub mod Rows
pub mod Access
pub mod Stored
pub mod Retry
pub mod Created
pub mod Effects
pub mod Marks
pub mod Ends
pub mod Kept
pub mod Position
pub mod Seen
pub mod Erased
pub mod Typing
pub mod Tests
pub mod PagesTests
