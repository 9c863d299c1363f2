-- ===== src/Bitstream.antt =====
-- crates/cheetah-media-bitstream: readers of coded streams.
pub mod Bit
pub mod Bytes
pub mod Rbsp
