-- ===== src/Va/Segment.antt =====
-- src/va/bitmap.rs: `Segment`, a reserved range of addresses whose blocks of 4096 bytes are tracked
-- by a bitmap. An operation takes the segment and returns it changed; `alloc_random` is an argument.
pub mod Defs
pub mod View
pub mod Claim
pub mod Single
pub mod Multi
pub mod Release
pub mod Resize
