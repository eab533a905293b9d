-- ===== src/Database.antt =====
-- src/database: the pool of database connections.
pub mod Pool
pub mod Leases
pub mod Held
pub mod Exclusive
mod Tests
