-- ===== src/Slab/Refill/Serve.antt =====
-- `bulk_fill` of src/slab/bulk_allocation.rs as a whole.
use oxidalloc.Prelude.{ℕ, ◌<◌, ◌≡◌, arith, Bool, true, false, Option, [], none}
use oxidalloc.Outcome.{Outcome, ok, panic}
use oxidalloc.Va.Segment.Defs.{blocks}
use oxidalloc.Va.Bitmap.{VaBitmap}
use oxidalloc.Va.Bitmap.View
use oxidalloc.Va.Bitmap.Blocks
use oxidalloc.Va.Bitmap.Blocks.{Allotted, Tried, Holds-refl}
use oxidalloc.Va.Bitmap.Alloc.{Allots}
use oxidalloc.Slab.Classes.{num_size_classes, block_size_of}
use oxidalloc.Slab.ThreadCache.Stacks.{Stacks, Holds}
use oxidalloc.Slab.Refill.{bins, pages_size, Store}
use oxidalloc.Slab.Refill.Fill.{Refilled, pages_size-fits}

module _ (mmap : (call size : ℕ) → Bool) (mmap_at : (call target size : ℕ) → Option ℕ)
    (getrandom : (call : ℕ) → Option ℕ) (map_fixed : (addr size : ℕ) → Bool) (random : ℕ → ℕ)
    (freed_magic : ℕ) (cpu : Option ℕ) (current_stamp class : ℕ) (inside : class < num_size_classes)
    (stacks : Stacks) (empty : stacks class ≡ []) where
  abbrev bytes : ℕ
  bytes = block_size_of class

  abbrev needed : ℕ
  needed = blocks (pages_size class)

  pub some_pages : 0 < needed
  some_pages = let l = pages_size-fits class inside in omega (arith, l.0, l.1)

  -- what `bulk_fill` leaves: blocks for the thread, from its pages or from a run of pages that was free,
  -- or the lists as they were, where the system does not map the run, or an abort
  pub data Serves (va : VaBitmap) : Outcome (Bool × Store) → Type 0 where
    from_pages :
        {s : Store}
        → Refilled freed_magic cpu current_stamp class inside stacks empty s.va s.engine
        → s.va ≡ va
        → Serves va (ok (true, s))
    from_run :
        {s : Store} (hint k first : ℕ)
        → Refilled freed_magic cpu current_stamp class inside stacks empty s.va s.engine
        → Allotted va needed hint s.va k first
        → Serves va (ok (true, s))
    no_memory :
        {s : Store} {after : VaBitmap} (hint k first : ℕ)
        → Allotted va needed hint after k first
        → map_fixed hint (pages_size class) ≡ false
        → Holds (bins s.engine) stacks
        → Blocks.Holds va s.va
        → Serves va (ok (false, s))
    exhausted :
        {after : VaBitmap}
        → Allots mmap mmap_at getrandom random needed some_pages va (ok (none, after))
        → Serves va panic
    stopped : Allots mmap mmap_at getrandom random needed some_pages va panic → Serves va panic
