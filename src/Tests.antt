-- ===== src/Tests.antt =====
-- The theorems at concrete inputs, and runs of the model.
mod VaSegment
mod VaRace
mod VaBitmap
mod VaRadix
mod SlabClasses
mod SlabThreadCache
mod SlabInitBlocks
mod SlabInterconnect
mod SlabPending
mod BigAllocMap
mod BigAllocation
mod Abi
mod Internals
mod Trim
mod Env
