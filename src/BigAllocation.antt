-- ===== src/BigAllocation.antt =====
-- src/big_allocation.rs, for the default build: allocations that have no size class. A pointer is an
-- address. The system's answers are arguments: `mmap`, `mmap_at` and `getrandom` for the list of
-- segments, `map_table` for the table, `protect` and `map_fixed` for the pages of an allocation.
pub mod Trip
use oxidalloc.Prelude.{
  ℕ, ◌+◌, ◌-◌, ◌*◌, ◌%◌, ◌^◌, Bool, ◌&&◌, ◌||◌, Option, none, some, leb, ltb, ◌==◌, if◌then◌else◌,
}
use oxidalloc.Outcome.{Outcome, ok, panic, ◌>>=◌}
use oxidalloc.Va.Align.{align_to}
use oxidalloc.Va.Bitmap
use oxidalloc.Va.Bitmap.{VaBitmap}
use oxidalloc.BigAllocMap.Defs
use oxidalloc.BigAllocMap.Defs.{BigAllocMeta, BigAllocMap}
use oxidalloc.Slab.Classes.{header_size}
use oxidalloc.Slab.ThreadCache.{OxHeader, Headers}

abbrev pub magic : ℕ
magic = 0

abbrev pub freed_magic : ℕ
freed_magic = 1

-- the list of segments, the table of large allocations, and the headers in memory
pub record Heap : Type 0 where
  pub va : VaBitmap
  pub table : BigAllocMap
  pub headers : Headers

-- `align_to(size + HEADER_SIZE, ..)`, where the sum wraps at 64 bits
unfoldable pub total_of : (thp : Bool) (size : ℕ) → ℕ
total_of thp size = align_to ((size + header_size) % 2 ^ 64) (if thp then 1024 * 1024 * 2 else 4096)

abbrev pub big_meta : ℕ → BigAllocMeta
big_meta size = record { size = size; class = 100; life_time = 0; flags = 0 }

abbrev pub big_header : OxHeader
big_header = record { next = 0; class = 100; magic = magic; life_time = 0 }

abbrev pub put_header : Headers → (addr : ℕ) → OxHeader → Headers
put_header h addr header p = if p == addr then header else h p

-- memory that the system gives anew, or that `write_bytes` clears
abbrev pub cleared : Headers → (addr size : ℕ) → Headers
cleared h addr size p =
    if leb addr p && ltb p (addr + size)
    then record { next = 0; class = 0; magic = 0; life_time = 0 }
    else h p

module _ (mmap : (call size : ℕ) → Bool) (mmap_at : (call target size : ℕ) → Option ℕ)
    (getrandom : (call : ℕ) → Option ℕ) (map_table : (size : ℕ) → Bool)
    (protect map_fixed : (addr size : ℕ) → Bool) where
  -- `big_malloc` behind the reservation of `total` bytes
  abbrev pub with_pages : (total size : ℕ) → Heap → Option ℕ × VaBitmap → Outcome (Option ℕ × Heap)
  with_pages total size h (none, va) = ok (none, record h { va = va })
  with_pages total size h (some addr, va) =
      if protect addr total || map_fixed addr total
      then (do
        table ← Defs.insert map_table addr (big_meta size) h.table
        ok (
          some ((addr + header_size) % 2 ^ 64),
          record { va = va; table = table; headers = put_header h.headers addr big_header },
        ))
      else (do released ← Bitmap.free va addr total; ok (none, record h { va = released }))

  unfoldable pub big_malloc :
      (thp : Bool) (random : ℕ → ℕ) (size : ℕ) → Heap → Outcome (Option ℕ × Heap)
  big_malloc thp random size h =
      Bitmap.alloc mmap mmap_at getrandom random (total_of thp size) h.va
      >>= with_pages (total_of thp size) size h

-- `big_free` behind the removal of the entry: after `madvise`, whose success drops the pages, or
-- `write_bytes`, the memory is zero
abbrev pub give_back :
    (thp : Bool) (header : ℕ) → Heap → Option BigAllocMeta × BigAllocMap → Outcome Heap
give_back thp header h (none, table) = panic
give_back thp header h (some meta, table) = do
  let total = total_of thp meta.size
  let freed = put_header h.headers header (record (h.headers header) { magic = freed_magic })
  va ← Bitmap.free h.va header total
  ok (record { va = va; table = table; headers = cleared freed header total })

unfoldable pub big_free : (thp : Bool) (ptr : ℕ) → Heap → Outcome Heap
big_free thp ptr h =
    let header = (ptr + 2 ^ 64 - header_size) % 2 ^ 64 in
    give_back thp header h (Defs.remove h.table header)
