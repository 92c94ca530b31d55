-- ===== src/BigAllocMap.antt =====
-- src/internals/hashmap.rs: the table of the allocations that have no size class.
pub mod Defs
pub mod Table
pub mod Probe
pub mod Order
pub mod Lookup
pub mod Remove
pub mod Insert
pub mod Grow
pub mod Written
pub mod Refine
