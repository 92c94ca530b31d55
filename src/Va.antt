-- ===== src/Va.antt =====
-- src/va: reservation of address space.
pub mod Align
pub mod Race
pub mod Reserve
pub mod Radix
pub mod Words
pub mod Segment
pub mod Bitmap
