-- ===== src/Pcr.antt =====
-- The command pcr (src/cmd_pcr.c): the extension of a PCR by digests given in hexadecimal.
mod Tests
pub mod Defs
pub mod Digits
pub mod Spelling
pub mod Run
