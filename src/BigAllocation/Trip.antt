-- ===== src/BigAllocation/Trip.antt =====
-- `big_malloc` and `big_free` of src/big_allocation.rs: what an allocation takes, and its release.
use oxidalloc.Prelude.{
  ℕ, ◌+◌, ◌-◌, ◌*◌, ◌%◌, ◌^◌, ◌≤◌, ◌<◌, ◌≡◌, ◌≢◌, refl, ap, ◌∙◌, subst, arith, Bool, true, false,
  ◌||◌, inl, inr, Option, none, some, Bool-cases,
}
use oxidalloc.Outcome.{Outcome, ok, panic, ◌>>=◌, Returns}
use oxidalloc.Va.Align.{align_to_lem}
use oxidalloc.Va.Segment.Defs.{blocks, block_size}
use oxidalloc.Va.Bitmap
use oxidalloc.Va.Bitmap.{VaBitmap}
use oxidalloc.Va.Bitmap.View
use oxidalloc.Va.Bitmap.Blocks.{Holds, Allotted}
use oxidalloc.Va.Bitmap.Alloc.{Allots, allotted, refused, aborted, no_first, alloc-Allots}
use oxidalloc.Va.Bitmap.Undo.{free-Holds}
use oxidalloc.BigAllocMap.Defs
use oxidalloc.BigAllocMap.Defs.{BigAllocMeta, BigAllocMap, get}
use oxidalloc.BigAllocMap.Lookup
use oxidalloc.BigAllocMap.Refine.{Inserts, inserted, no_memory, NoTable, insert-Inserts}
use oxidalloc.BigAllocMap.Remove.{remove-Removes}
use oxidalloc.Slab.Classes.{header_size}
use oxidalloc.BigAllocation.{
  Heap, total_of, big_meta, big_header, put_header, cleared, with_pages, freed_magic, give_back,
  big_malloc, big_free,
}

-- the largest request that `malloc` passes on
abbrev pub max_request : ℕ
max_request = 1024 * 1024 * 1024 * 3

-- the pages of an allocation hold its header and its bytes
pub total_of_lem :
    (thp : Bool) (size : ℕ)
    → size ≤ max_request
    → (0 < blocks (total_of thp size))
      × (size + header_size ≤ blocks (total_of thp size) * block_size)
unfolding total_of
total_of_lem true size small =
    let wrap : (size + header_size) % 2 ^ 64 ≡ size + header_size = omega arith in
    let (whole, lo, hi) = align_to_lem 21 (size + header_size) (omega arith) (omega arith) in
    rw wrap (omega arith, omega arith)
total_of_lem false size small =
    let wrap : (size + header_size) % 2 ^ 64 ≡ size + header_size = omega arith in
    let (whole, lo, hi) = align_to_lem 12 (size + header_size) (omega arith) (omega arith) in
    rw wrap (omega arith, omega arith)

total_of-le : (thp : Bool) (size : ℕ) → size ≤ max_request → total_of thp size + block_size < 2 ^ 64
unfolding total_of
total_of-le true size small =
    let wrap : (size + header_size) % 2 ^ 64 ≡ size + header_size = omega arith in
    let (whole, lo, hi) = align_to_lem 21 (size + header_size) (omega arith) (omega arith) in
    rw wrap (omega arith)
total_of-le false size small =
    let wrap : (size + header_size) % 2 ^ 64 ≡ size + header_size = omega arith in
    let (whole, lo, hi) = align_to_lem 12 (size + header_size) (omega arith) (omega arith) in
    rw wrap (omega arith)

pub record IsValid (h : Heap) : Type 0 where
  pub va : View.IsValid h.va
  pub table : Lookup.IsValid h.table

-- What an allocation of `size` bytes does: its run of pages was free and is taken, the table has its
-- size, and the header stands in front of the bytes; or nothing is taken; or it aborts.
module _ (mmap : (call size : ℕ) → Bool) (mmap_at : (call target size : ℕ) → Option ℕ)
    (getrandom : (call : ℕ) → Option ℕ) (map_table : (size : ℕ) → Bool)
    (protect map_fixed : (addr size : ℕ) → Bool) (random : ℕ → ℕ) where
  -- `alloc` found no pages, or the system did not map the run that it took
  pub data NoPages (h : Heap) (thp : Bool) (size : ℕ) : Type 0 where
    no_run :
        {va : VaBitmap} (some_block : 0 < blocks (total_of thp size))
        → Allots mmap mmap_at getrandom random
            (blocks (total_of thp size))
            some_block
            h.va
            (ok (none, va))
        → NoPages h thp size
    unmapped :
        {va : VaBitmap} (addr k first : ℕ)
        → Allotted h.va (blocks (total_of thp size)) addr va k first
        → (protect addr (total_of thp size) || map_fixed addr (total_of thp size)) ≡ false
        → NoPages h thp size

  pub data Gives (h : Heap) (thp : Bool) (size : ℕ) : Outcome (Option ℕ × Heap) → Type 0 where
    given :
        {ptr : ℕ} {h' : Heap} (addr k first : ℕ)
        → ptr ≡ addr + header_size
        → addr + blocks (total_of thp size) * block_size < 2 ^ 64
        → Allotted h.va (blocks (total_of thp size)) addr h'.va k first
        → IsValid h'
        → get h'.table addr ≡ some (big_meta size)
        → ((key : ℕ) → key ≢ addr → get h'.table key ≡ get h.table key)
        → h'.headers ≡ put_header h.headers addr big_header
        → Gives h thp size (ok (some ptr, h'))
    nothing :
        {h' : Heap}
        → Holds h.va h'.va
        → h'.table ≡ h.table
        → h'.headers ≡ h.headers
        → NoPages h thp size
        → Gives h thp size (ok (none, h'))
    no_table : NoTable map_table h.table → Gives h thp size panic
    stopped :
        (some_block : 0 < blocks (total_of thp size))
        → Allots mmap mmap_at getrandom random (blocks (total_of thp size)) some_block h.va panic
        → Gives h thp size panic

  module _ (table_fits : (size : ℕ) → map_table size ≡ true → size < 2 ^ 47) (h : Heap) (thp : Bool)
      (size : ℕ) (valid : IsValid h) (small : size ≤ max_request) where
    abbrev needed : ℕ
    needed = blocks (total_of thp size)

    -- the end of the run is an address
    below :
        (addr : ℕ) (va : VaBitmap) (k first : ℕ)
        → Allotted h.va needed addr va k first
        → addr + needed * block_size < 2 ^ 64
    below addr va k first a =
        let room = a.room in
        let e = a.address in
        let seg = a.valid.segs k a.inside in
        let w = seg.bounded in let o = seg.ordered in omega arith

    table-Gives :
        (addr : ℕ) (va : VaBitmap) (k first : ℕ)
        → Allotted h.va needed addr va k first
        → (o : Outcome BigAllocMap) → Inserts map_table addr (big_meta size) h.table o
        → Gives h thp size (
            o >>= (λ table. ok (
              some ((addr + header_size) % 2 ^ 64),
              record { va = va; table = table; headers = put_header h.headers addr big_header },
            )))
    table-Gives addr va k first a _ (inserted table mine others) =
        let end = below addr va k first a in
        let (pos, holds) = total_of_lem thp size small in
        given addr k first (omega arith) end a (record { va = a.valid; table = table }) mine others
          refl
    table-Gives addr va k first a _ (no_memory h) = no_table h

    total_fits : total_of thp size + block_size < 2 ^ 64
    total_fits = total_of-le thp size small

    Allots-Gives :
        (some_block : 0 < needed)
        → (o : Outcome (Option ℕ × VaBitmap))
        → Allots mmap mmap_at getrandom random needed some_block h.va o
        → Gives h thp size (
            o
            >>= with_pages mmap mmap_at getrandom map_table protect map_fixed
                (total_of thp size)
                size
                h)
    Allots-Gives some_block _ (refused held tried at why) =
        nothing held refl refl (no_run some_block (refused held tried at why))
    Allots-Gives some_block _ (aborted tried at why) = stopped some_block (aborted tried at why)
    Allots-Gives some_block _ (no_first nil why) = stopped some_block (no_first nil why)
    Allots-Gives some_block _ (allotted {addr} {b' = va} k first a) =
        elim (Bool-cases (protect addr (total_of thp size) || map_fixed addr (total_of thp size))) [
          | inl usable ↦ rw usable (
              table-Gives addr va k first a _
                (insert-Inserts map_table table_fits h.table valid.table addr (big_meta size)))
          | inr refused_pages ↦
              let (c, run, held) =
                free-Holds h.va va (total_of thp size) addr k first some_block total_fits a in
              rw refused_pages
                (rw run (nothing held refl refl (unmapped addr k first a refused_pages)))
        ]

    pub big_malloc-Gives :
        Gives h thp size
          (big_malloc mmap mmap_at getrandom map_table protect map_fixed thp random size h)
    unfolding big_malloc
    big_malloc-Gives =
        let (pos, holds) = total_of_lem thp size small in
        Allots-Gives pos _ (
          alloc-Allots mmap mmap_at getrandom random (total_of thp size) h.va pos total_fits
            valid.va)

    -- what is the same after an allocation and its release
    pub record Restores (addr : ℕ) (c : Heap) : Type 0 where
      pub in_order : IsValid c
      pub blocks_back : Holds h.va c.va
      pub entry_gone : get c.table addr ≡ none
      pub others : (key : ℕ) → key ≢ addr → get c.table key ≡ get h.table key

    abbrev after : Heap → (addr : ℕ) → BigAllocMap → VaBitmap → Heap
    after h' addr table va =
        let total = total_of thp size in
        let freed = put_header h'.headers addr (record (h'.headers addr) { magic = freed_magic }) in
        record { va = va; table = table; headers = cleared freed addr total }

    free_run :
        (h' : Heap) (table : BigAllocMap) (va : VaBitmap) (addr ptr : ℕ)
        → ptr ≡ addr + header_size
        → addr + header_size < 2 ^ 64
        → Defs.remove h'.table addr ≡ (some (big_meta size), table)
        → Bitmap.free h'.va addr (total_of thp size) ≡ ok va
        → big_free thp ptr h' ≡ ok (after h' addr table va)
    unfolding big_free
    free_run h' table va addr ptr e end removed freed =
        let header : (ptr + 2 ^ 64 - header_size) % 2 ^ 64 ≡ addr = omega arith in
        ap (λ t. give_back thp t h' (Defs.remove h'.table t)) header
        ∙ ap (give_back thp addr h') removed
        ∙ rw freed refl

    given-Restores :
        (ptr : ℕ) (h' : Heap)
        → Gives h thp size (ok (some ptr, h'))
        → Returns (big_free thp ptr h') (Restores (ptr - header_size))
    given-Restores ptr h' (given addr k first e end a valid' mine others headers) =
        let (pos, holds) = total_of_lem thp size small in
        let header : ptr - header_size ≡ addr = omega arith in
        let (va, freed, held) =
          free-Holds h.va h'.va (total_of thp size) addr k first pos total_fits a in
        let removes = remove-Removes h'.table valid'.table addr in
        let left = (Defs.remove h'.table addr).1 in
        let removed : Defs.remove h'.table addr ≡ (some (big_meta size), left) =
          ap (λ t. (t, left)) (removes.returned ∙ mine) in
        (
          after h' addr left va,
          free_run h' left va addr ptr e (omega arith) removed freed,
          record {
            in_order = record { va = held.valid; table = removes.valid };
            blocks_back = held;
            entry_gone = rw header removes.gone;
            others = λ key other.
                (removes.others key (rw header at other) ∙ others key (rw header at other));
          },
        )

    -- On a heap in order, for a size that `malloc` passes on, `big_free` of a pointer that
    -- `big_malloc` has given returns: every page is in use or free as before the allocation, the
    -- table has no entry for it and its other entries are as before. Condition: the system maps
    -- less than 2 ^ 47 bytes for the table.
    pub big_free-big_malloc :
        (ptr : ℕ) (h' : Heap)
        → big_malloc mmap mmap_at getrandom map_table protect map_fixed thp random size h
          ≡ ok (some ptr, h')
        → Returns (big_free thp ptr h') (Restores (ptr - header_size))
    big_free-big_malloc ptr h' run =
        given-Restores ptr h' (subst (Gives h thp size) run big_malloc-Gives)
