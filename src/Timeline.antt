-- ===== src/Timeline.antt =====
-- crates/cheetah-media-timeline: what keeps packets in time.
pub mod Entries
pub mod Gop
pub mod Clock
pub mod Sync
