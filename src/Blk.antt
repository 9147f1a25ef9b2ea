-- ===== src/Blk.antt =====
-- blk/: the block allocators.
pub mod AvlAllocator
