-- ===== src/NvStorage.antt =====
-- The non-volatile storage block of libvboot_util/firmware/vboot_nvstorage.c: sixteen bytes with a
-- header, a CRC-8 and bit fields that the firmware and the kernel share.
pub mod Crc
pub mod Defs
mod Bytes
pub mod Fields
pub mod Access
pub mod Laws
pub mod Session
mod Tests
