-- ===== src/Slab.antt =====
-- src/slab: the slab allocator.
pub mod Classes
pub mod ThreadCache
pub mod InitBlocks
pub mod Interconnect
pub mod Pending
pub mod Refill
