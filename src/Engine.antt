-- ===== src/Engine.antt =====
-- crates/cheetah-media-engine: the player engine and its parts.
pub mod Resource
pub mod Recovery
pub mod Metrics
pub mod Latency
pub mod State
pub mod Scheduler
