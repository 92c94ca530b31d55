-- ===== src/Tests/BigAllocation.antt =====
-- A heap of one segment of 100 free blocks and a table with two other entries.
use oxidalloc.Prelude.{ℕ, ◌-◌, ◌≡◌, refl, arith, Bool, true, false, Option, some}
use oxidalloc.Outcome.{Outcome, ok, Returns}
use oxidalloc.BigAllocation.{Heap, total_of, big_malloc, big_free}
use oxidalloc.BigAllocation.Trip.{IsValid, Restores, big_free-big_malloc}
use oxidalloc.Tests.BigAllocMap
use oxidalloc.Tests.BigAllocMap.{pair, pair-IsValid, mmap_fits}
use oxidalloc.Tests.VaBitmap.{mmap, mmap_at, getrandom, one, one-IsValid}
use oxidalloc.Prelude.Word.{complement}
use oxidalloc.Va.Words.{load, modify, claim_chunks, chunk_mask, each_chunk}
use oxidalloc.Va.Align.{align_to}
use oxidalloc.Va.Bitmap.{alloc, try_latest}
use oxidalloc.Va.Segment.Defs.{try_claim}
use oxidalloc.Va.Segment.Multi.{alloc_multi, search_range, scan_range, claim_run}
use oxidalloc.BigAllocMap.Defs.{
  insert, insert_from, home, hash_key, next, grow, alloc_raw, move_entries, move_entry,
  reinsert_from, ensure_capacity,
}

abbrev heap : Heap
heap = record {
  va = one;
  table = pair;
  headers = λ p. record { next = 0; class = 0; magic = 0; life_time = 0 };
}

heap-IsValid : IsValid heap
heap-IsValid = record { va = one-IsValid; table = pair-IsValid }

abbrev yes_to : (addr size : ℕ) → Bool
yes_to addr size = true

abbrev no_to : (addr size : ℕ) → Bool
no_to addr size = false

abbrev allocation : Outcome (Option ℕ × Heap)
allocation =
    big_malloc mmap mmap_at getrandom BigAllocMap.mmap yes_to no_to false (λ k. 70) 5000 heap

abbrev heap_of : Outcome (Option ℕ × Heap) → Heap
heap_of (ok (ptr, h)) = h
heap_of _ = heap

after : allocation ≡ ok (some 0x146010, heap_of allocation)
unfolding big_malloc alloc try_latest alloc_multi total_of align_to complement search_range
    scan_range load claim_run try_claim claim_chunks chunk_mask each_chunk insert ensure_capacity
    insert_from home hash_key next modify grow alloc_raw move_entries move_entry reinsert_from
after = refl

big_free-big_malloc_example : Returns (big_free false 0x146010 (heap_of allocation)) (
    Restores mmap mmap_at getrandom BigAllocMap.mmap yes_to no_to
      (λ k. 70)
      mmap_fits
      heap
      false
      5000
      heap-IsValid
      (omega arith)
      (0x146010 - 16))
big_free-big_malloc_example =
    big_free-big_malloc mmap mmap_at getrandom BigAllocMap.mmap yes_to no_to (λ k. 70) mmap_fits
      heap false 5000 heap-IsValid (omega arith) 0x146010 (heap_of allocation) after
