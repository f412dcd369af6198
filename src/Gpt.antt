-- ===== src/Gpt.antt =====
-- The GUID partition table of libvboot_util/cgptlib.
pub mod Crc32
pub mod Entry
pub mod Attributes
pub mod Fields
pub mod Setters
pub mod Check
pub mod Sanity
pub mod Sane
pub mod Region
pub mod Overlap
pub mod Clear
pub mod Kernel
pub mod Layout
pub mod Repair
pub mod Repaired
pub mod Placed
pub mod Intact
pub mod Moved
pub mod Finish
pub mod Initialize
pub mod Update
pub mod Updated
pub mod Tries
pub mod Modified
pub mod Keeps
pub mod Nth
pub mod Order
mod Tests
mod UpdateTests
