-- ===== src/Gbb.antt =====
-- The Google Binary Block: src/misc.c and src/cmd_gbb_utility.c.
pub mod Header
pub mod Laws
pub mod Valid
pub mod Create
pub mod Find
mod Tests
pub mod Set
pub mod SetHwid
pub mod SetFrame
