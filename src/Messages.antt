-- ===== src/Messages.antt =====
-- src/messages: the messages between a client and the server, and their text in JSON.
pub mod Account
pub mod Play
pub mod Replies
pub mod Objects
pub mod Reading
pub mod Presence
pub mod Selection
pub mod MapUpdate
pub mod Bounds
pub mod RoundTrip
mod Tests
mod RequestTests
