-- ===== src/Abi.antt =====
-- src/abi: the C interface.
pub mod Align
pub mod Calloc
