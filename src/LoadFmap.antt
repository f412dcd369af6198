-- ===== src/LoadFmap.antt =====
-- The command load_fmap (src/cmd_load_fmap.c): files copied into the areas of a flash map.
mod Tests
pub mod Defs
pub mod Loop
pub mod Frame
pub mod Restore
pub mod Complement
