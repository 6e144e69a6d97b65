-- ===== src/Loop.antt =====
-- crates/loop: one run of the model loop, its strategies and their registry.
pub mod Messages
pub mod Strategy
pub mod Run
pub mod Engine
