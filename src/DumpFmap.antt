-- ===== src/DumpFmap.antt =====
-- The command dump_fmap (src/cmd_dump_fmap.c): the areas shown as a tree, and extracted to files.
mod Tests
pub mod Nodes
pub mod Coalesce
pub mod Distinct
pub mod Parent
pub mod Clashes
pub mod Sort
pub mod Show
pub mod Tree
pub mod Depth
pub mod Whole
pub mod Shown
pub mod Output
pub mod Extract
pub mod Extracted
