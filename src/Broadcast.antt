-- ===== src/Broadcast.antt =====
-- crates/cheetah-media-engine/src/broadcast: the sending side of the engine.
pub mod Permission
pub mod Pipeline
pub mod Engine
