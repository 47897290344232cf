-- ===== src/Block.antt =====
-- src/block.rs and src/block/: the blocks of a table file.
pub mod Data
pub mod Filter
