-- ===== src/Host.antt =====
-- The host library of libvboot_util/host, which makes key blocks and preambles.
pub mod Structs
pub mod Create
pub mod Copied
pub mod Inits
pub mod CopiedKey
pub mod Signing
pub mod Signed
pub mod Checksum
pub mod KeyBlockMade
pub mod KeyBlock
pub mod KernelMade
pub mod Kernel
pub mod FirmwareMade
pub mod Firmware
mod Tests
