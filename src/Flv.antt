-- ===== src/Flv.antt =====
-- crates/cheetah-container-flv/src: the headers of files and tags, read and written.
pub mod Error
pub mod Header
pub mod Writer
