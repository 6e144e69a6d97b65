-- ===== src/Execution.antt =====
-- crates/execution: the replay ledger of a remote executor and the guarded executor over it.
pub mod Ledger
pub mod FileLedger
pub mod Remote
mod Tests
