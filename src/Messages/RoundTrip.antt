-- ===== src/Messages/RoundTrip.antt =====
-- What is written by `serialize` is read by `deserialize`.
pub mod Documents
pub mod Fits
pub mod Objects
pub mod Presence
pub mod Selection
pub mod MapUpdate
pub mod Texts
pub mod Account
pub mod Play
pub mod Replies
