-- ===== src/Slab/Refill.antt =====
-- src/slab/bulk_allocation.rs: `bulk_fill`, which gives blocks of a class to a thread that has none left,
-- from the pages that the class has not cut yet or from new ones. The advice on huge pages for the
-- largest class only hints and is left out.
pub mod Cutting
pub mod Fresh
pub mod Fill
pub mod Renew
pub mod Serve
use oxidalloc.Prelude.{
  ℕ, ◌+◌, ◌*◌, ◌/◌, ◌%◌, ◌^◌, Bool, true, false, Option, none, some, ltb, leb, get_or, ◌==◌,
  if◌then◌else◌,
}
use oxidalloc.Outcome.{Outcome, ok, panic, ◌>>=◌}
use oxidalloc.Va.Bitmap
use oxidalloc.Va.Bitmap.{VaBitmap}
use oxidalloc.Slab.Classes.{num_size_classes, iterations, block_size_of, tls_max_blocks}
use oxidalloc.Slab.ThreadCache.{ThreadLocalEngine, push_to_thread_tailed}
use oxidalloc.Slab.InitBlocks.{MetaData, Blocks, remaining_blocks, init_blocks}
use oxidalloc.Slab.Interconnect.{put_at, push_to_global}
use oxidalloc.Slab.Pending.{Engine, clear_pending, after_cut}
use oxidalloc.BigAllocation.{cleared}

-- `size_of::<MetaData>()`: three words, aligned to 16 bytes
abbrev pub metadata_size : ℕ
metadata_size = 32

-- the most blocks that one refill cuts
abbrev pub max_init : (block_size : ℕ) → ℕ
max_init block_size =
    let blocks_per_4k = 4096 / block_size in
    if leb 48 blocks_per_4k then 48 else if blocks_per_4k == 0 then 1 else blocks_per_4k

-- the thread's bins on the shared headers
abbrev pub bins : Engine → ThreadLocalEngine
bins t = record { tls = t.tls; headers = t.caches.headers }

abbrev pub with_bins : Engine → ThreadLocalEngine → Engine
with_bins t e = record t { tls = e.tls; caches = record (t.caches) { headers = e.headers } }

abbrev pub push_made : (class : ℕ) → Blocks → Engine → Outcome Engine
push_made class made t = do
  e ← push_to_thread_tailed (bins t) class made.head made.tail made.count
  ok (with_bins t e)

-- `size_of::<MetaData>() + block_size * num_blocks`
unfoldable pub pages_size : (class : ℕ) → ℕ
pages_size class = metadata_size + block_size_of class * get_or iterations class 0

-- memory that the system gives anew at `hint`, with the metadata at its beginning
abbrev pub new_pages : (hint total : ℕ) → Engine → Engine
new_pages hint total t = record t {
  metadata = λ m.
      if m == hint
      then record {
        start = hint;
        end = (hint + total) % 2 ^ 64;
        next = (hint + metadata_size) % 2 ^ 64;
      }
      else t.metadata m;
  caches = record (t.caches) { headers = cleared (t.caches.headers) hint total };
}

-- the thread with its caches, and the list of segments
pub record Store : Type 0 where
  pub engine : Engine
  pub va : VaBitmap

module _ (freed_magic : ℕ) (cpu : Option ℕ) (current_stamp class : ℕ) where
  abbrev pub cut_some : MetaData → Engine → Blocks
  cut_some m t =
      let block_size = block_size_of class in
      init_blocks freed_magic class m block_size (max_init block_size) current_stamp
        t.caches.headers

  -- pending pages whose blocks are all cut are forgotten
  abbrev pub forget_empty : (pages : ℕ) → Engine → Engine
  forget_empty pages t =
      if remaining_blocks (t.metadata pages) (block_size_of class) == 0
      then clear_pending class t
      else t

  -- new pages that have blocks left become pending
  abbrev pub keep_rest : (pages : ℕ) → Engine → Engine
  keep_rest pages t =
      if remaining_blocks (t.metadata pages) (block_size_of class) == 0
      then t
      else record t { pending = put_at t.pending class pages }

  abbrev pub give_made : Blocks → Engine → Outcome Engine
  give_made made t =
      if leb (tls_max_blocks class) (t.tls class).usage
      then ok
          (record t { caches = push_to_global cpu class made.head made.tail made.count t.caches })
      else push_made class made t

  -- the end of `bulk_fill`, on new pages; false stands for `Err::OutOfMemory`
  unfoldable pub fill_pages : (pages : ℕ) → Engine → Outcome (Bool × Engine)
  fill_pages pages t =
      let made = cut_some (t.metadata pages) t in
      if made.count == 0
      then ok (false, after_cut pages made t)
      else (do u ← give_made made (after_cut pages made t); ok (true, keep_rest pages u))

  module _ (mmap : (call size : ℕ) → Bool) (mmap_at : (call target size : ℕ) → Option ℕ)
      (getrandom : (call : ℕ) → Option ℕ) (map_fixed : (addr size : ℕ) → Bool)
      (random : ℕ → ℕ) where
    -- behind the reservation
    unfoldable pub with_hint : Engine → Option ℕ × VaBitmap → Outcome (Bool × Store)
    with_hint t (none, va) = panic
    with_hint t (some hint, va) =
        let total = pages_size class in
        if map_fixed hint total
        then (do
          done ← fill_pages hint (new_pages hint total t)
          ok (done.0, record { engine = done.1; va = va }))
        else (do
          released ← Bitmap.free va hint total
          ok (false, record { engine = t; va = released }))

    unfoldable pub from_new : Engine → VaBitmap → Outcome (Bool × Store)
    from_new t va = Bitmap.alloc mmap mmap_at getrandom random (pages_size class) va >>= with_hint t

    unfoldable pub bulk_fill : Store → Outcome (Bool × Store)
    bulk_fill s =
        let t = s.engine in
        let pending = t.pending class in
        let made = cut_some (t.metadata pending) t in
        let cut = after_cut pending made t in
        if ltb class num_size_classes
        then if pending == 0
          then from_new t s.va
          else if made.count == 0
          then from_new (clear_pending class cut) s.va
          else (do
            u ← push_made class made cut
            ok (true, record s { engine = forget_empty pending u }))
        else panic
