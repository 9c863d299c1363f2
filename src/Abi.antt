-- ===== src/Abi.antt =====
-- crates/cheetah-media-abi.
pub mod Arena
