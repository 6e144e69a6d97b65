-- ===== src/Coordination.antt =====
-- crates/coordination/src/lib.rs: routes of delegated work, their budget, and the route runtime.
pub mod Contract
pub mod Route
pub mod Budget
pub mod Validation
pub mod Runtime
mod Tests
