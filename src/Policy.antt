-- ===== src/Policy.antt =====
-- crates/policy: which actions a rule or a grant covers.
pub mod Path
pub mod Matcher
pub mod Rules
pub mod Envelope
mod Tests
