-- ===== src/Transit.antt =====
-- The data model of sdk/transit.
pub mod Value
pub mod Status
pub mod Monitored
pub mod Events
