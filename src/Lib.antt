-- ===== src/Lib.antt =====
-- Oxidalloc, a general-purpose allocator for x86-64 Linux in Rust: a model of its core, and the
-- theorems that make it correct.
--
-- The allocator reserves address space in segments (src/va) and keeps in each a bitmap of pages of
-- 4096 bytes. A large allocation (src/big_allocation.rs) takes pages from a segment, and its size is
-- kept in a table keyed by its address (src/internals/hashmap.rs). A small one takes a block of one
-- of 34 size classes (src/slab), which are cut from pages, cached per thread and per processor. The
-- C interface (src/abi) chooses between the two, and src/trim gives unused memory back.
--
-- Numbers. A `usize`, `u64` or `u8` is a native number. The build checks overflows: where a sum of the
-- source leaves its type, or a difference falls below 0, it panics. So do the operations of the
-- segments, of their list, of the reservation of addresses and of the caches' counts, and the reading
-- of numbers. Atomic counters and the source's `wrapping` operations wrap, by `% 2 ^ w`. Some sums that
-- do not leave their type under the theorems' conditions are also written with `% 2 ^ w`: those of
-- `align_to`, of `total_of` in big_allocation.rs, of the tests of the table's load and of the addresses
-- of blocks in the slab allocator; and so is the sum in `aligned_at` of align.rs, which leaves its type
-- only for an allocation that ends at 2 ^ 64.
-- Atomic accesses are plain reads and writes, except in Va.Race and Internals, where they are the
-- steps.
-- Operations return `Outcome`: a value, Rust's panic or abort, or the end of the fuel.
--
-- Prelude: the libraries' names, Boolean tests, lists, and words of 64 bits by their bits
--   (Prelude.Word: shifts, complement, trailing zeros, masks).
-- Outcome: the results of a run, and `Returns`, which says that a run ends in a value.
-- Va.Align: `align_to` of src/va/mod.rs.
-- Va.Words: the loops of src/va/bitmap.rs over the words of a run of bits: the chunks of
--   `try_claim`, `rollback_claim` and `rollback`. Bits shows what one mask changes, Chunk one turn,
--   Runs and Claims the loops.
-- Va.Segment: `Segment` of src/va/bitmap.rs, as one thread runs it. Defs holds the record, `try_claim`,
--   `free` and `realloc_inplace`; View says which blocks are in use and when a segment is in order;
--   Claim, Release and Resize are about the three operations; Single and Multi are `alloc_single` and
--   `alloc_multi`, whose random number is an argument. The segment's raw pointers are functions from
--   indices to words with the length `map_len`, past which a read panics; `next` is the number of the
--   segment created before.
--   Fuel: the loops of `try_claim` get one round more than the blocks they process, and every round
--   processes at least one. The loop of `alloc_single` over one word gets 65 rounds, and every round
--   sets a bit of the word. The loop of `alloc_multi` over a range gets one round more than the range
--   has bits, and every round moves on.
-- Va.Race: `try_claim` of a run inside one word by two threads, a step per atomic access. Owners is
--   about who holds the claims, Twice about two claims of one run that overlap.
-- Va.Radix: `Radix` and `RadixTree` of src/va/bitmap.rs, which say which segment has an address.
--   Cells is about one entry, Ranges about the two loops over the chunks of a range. `mmap` is an
--   argument that says for which sizes the system gives memory.
-- Va.Reserve: `get_va_from_kernel` of src/va/bitmap.rs, with the process-wide variables as a record;
--   Halving is about its loop. The answers of `mmap` and `getrandom` are arguments, by the number of
--   the call. Fuel: 64 rounds, and a round that goes on halves a size of 64 bits.
-- Va.Bitmap: `VaBitmap` of src/va/bitmap.rs, as one thread runs it. The segments have numbers, in the
--   order in which they were made; `alloc`, `free`, `realloc_inplace`, `grow` and `is_ours` are as in the
--   source, and the walks of the list get as many rounds as there are segments. View says when a list
--   is in order, and is about the search for an address; Release is about `free` and
--   `realloc_inplace`, Extend and Grow about `grow`, Ours about `is_ours` behind it, Blocks, Walk, Retry
--   and Alloc about `alloc`. `mmap`, `mmap_at` and `getrandom` are arguments, and so is the random
--   number for each segment. A refusal that a theorem names is one of a request that the run makes.
-- BigAllocMap: `BigAllocMap` of src/internals/hashmap.rs, an open-addressing table with tombstones,
--   under its lock. Defs holds the operations; Probe the places that a probe visits; Order the
--   invariant of the table; Lookup, Remove, Insert, Written and Grow the operations' effects on it;
--   Refine compares `insert` with the update of a finite map. `mmap` is an argument as in Va.Radix. The probes
--   run `cap` rounds, as in the source.
-- BigAllocation: `big_malloc` and `big_free` of src/big_allocation.rs, over Va.Bitmap and BigAllocMap,
--   whose statics are the fields of one heap. Trip is about an allocation and its release.
-- Abi: of the C interface, src/abi/align.rs (Align, with the search of src/abi/free.rs for the pointer
--   behind an aligned one and `malloc_usable_size` of src/abi/malloc.rs) and src/abi/calloc.rs (Calloc).
--   `malloc` is an argument; Aligned and Zeroes hold the theorems.
-- Slab.Classes: the size classes, `match_size_class` and the tables of src/slab/mod.rs, for the
--   default build, whose block header has 16 bytes. Fit is about the choice of a class, Budget about
--   the size of blocks and of a thread's cache.
-- Slab.ThreadCache: the bins of src/slab/thread_local.rs, for the default build. Blocks are addresses
--   and their headers (`OxHeader` of src/lib.rs) a store; Chain reads the chains in the store as lists,
--   Stacks compares the operations with those of one stack for each class.
-- Slab.Interconnect: the processors' caches of src/slab/interconnect.rs, for the default build and as
--   one thread runs them, and src/slab/global.rs. The arrays of the processors stand one behind the
--   other, as in memory. Tags is about the tagged heads, Batches about the walk along a chain, Stacks
--   and Pop about the lists of blocks, Steal about the search of the other processors' caches. The
--   walk gets as many rounds as the batch has blocks, the search as many as there are processors.
-- Slab.InitBlocks: `init_blocks` of src/slab/bulk_allocation.rs, on the same store of headers; Carve
--   follows its loop, block by block, Pages is about what it leaves.
-- Slab.Pending: `drain_pending` of src/slab/bulk_allocation.rs, over Slab.InitBlocks and Slab.Interconnect on
--   one store of headers; Pages is about the blocks that are left in pages, Drain about what it gives to the
--   processors' caches.
-- Slab.Refill: `bulk_fill` of src/slab/bulk_allocation.rs, over Slab.InitBlocks, Slab.ThreadCache,
--   Slab.Interconnect and Va.Bitmap. Cutting is about the blocks cut for the thread, Fill about the
--   end of the refill, Fresh about the addresses in a run that was free, Renew about new pages, Serve
--   about the whole. `map_fixed` is an argument that says where the system maps pages.
-- Internals: Lock is src/internals/lock.rs and Once is `call_once` of src/internals/once.rs, for any number
--   of threads and a step per atomic access. Inside is about who holds the lock, Called about the runs
--   of the closure.
-- Trim: `TimeDecay` of src/trim/mod.rs. Order compares the decays of two ages.
-- Env: src/internals/env.rs. Lookup is about the search for a variable, Number about its number.
-- Tests: the theorems at concrete inputs, and runs of the model.
--
-- Not modelled: threads that change the list of segments at the same time, but for the lock of `grow`,
-- which Internals.Lock has without the list; of src/slab the clean-up of a thread's cache and the
-- making of the processors' caches; of the C interface `malloc`, `free` and `realloc` (src/abi); the
-- walks of src/trim, start-up (src/va/bootstrap.rs), `OnceLock` and the resets in the child of a fork
-- (src/internals), and system calls (src/sys); memory orders weaker than sequential consistency; the
-- `hardened-linked-list` feature.
pub mod Prelude
pub mod Outcome
pub mod Va
pub mod Slab
pub mod BigAllocMap
pub mod BigAllocation
pub mod Abi
pub mod Internals
pub mod Trim
pub mod Env
mod Tests
