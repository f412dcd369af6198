-- ===== src/Traversal.antt =====
-- Walking over the parts of a file: src/traversal.c.
pub mod Defs
pub mod Bounds
mod Tests
