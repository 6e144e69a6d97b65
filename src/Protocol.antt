-- ===== src/Protocol.antt =====
-- crates/protocol: the vocabulary that every other crate uses.
pub mod Kinds
pub mod Actions
pub mod Envelopes
pub mod Events
pub mod Remote
pub mod Replication
