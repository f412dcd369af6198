-- ===== src/Verify.antt =====
-- Verified boot's checks of keys, key blocks and preambles:
-- libvboot_util/firmware/vboot_common.c, and what they call of cryptolib/rsa_utility.c and
-- host/host_key.c.
pub mod Crypto
pub mod Inside
pub mod PublicKey
pub mod Signature
pub mod Defs
pub mod Blocks
pub mod Laws
pub mod KeyBlocks
mod Tests
