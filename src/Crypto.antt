-- ===== src/Crypto.antt =====
-- crates/cheetah-crypto-transforms: decryption of payloads, piece by piece.
pub mod Bytes
pub mod Xor
pub mod Cbc
