-- ===== src/Fmap.antt =====
-- The flash map of libvboot_util/host/fmap.c: finding its header in an image, and an area in it.
pub mod Search
pub mod Defs
pub mod Align
pub mod Scan
pub mod Find
pub mod Areas
mod Tests
