-- ===== src/Pubsub/Registry/Consistency.antt =====
-- The three maps of a registry across each operation of registry.rs.
pub mod Leaving
pub mod Departures
pub mod Joining
pub mod Admitting
pub mod Lanewise
pub mod Delivering
