-- ===== src/Types.antt =====
-- crates/cheetah-media-types: errors, formats, track descriptors, time and budgets.
pub mod Error
pub mod Format
pub mod Time
pub mod Track
pub mod Budget
pub mod Limits
pub mod Packet
pub mod Pool
