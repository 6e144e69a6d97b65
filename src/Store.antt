-- ===== src/Store.antt =====
-- crates/store: the event log with its projections, and the replica.
pub mod Log
pub mod Projection
pub mod Replica
mod Tests
