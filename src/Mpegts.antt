-- ===== src/Mpegts.antt =====
-- crates/cheetah-container-mpegts: the transport stream demuxer's parts.
pub mod Error
pub mod Clock
pub mod Framing
pub mod Packet
pub mod Pes
pub mod Section
