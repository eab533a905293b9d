-- ===== src/Repositories.antt =====
-- src/repositories: what is read from the database and written to it.
pub mod Sql
pub mod Models
pub mod Users
pub mod BannedUsers
pub mod Characters
pub mod CharacterReads
pub mod Locations
pub mod Stats
pub mod FirstRow
mod Tests
