-- ===== src/Slab/Pending.antt =====
-- src/slab/bulk_allocation.rs: `drain_pending`, which gives the pages that a thread has not cut yet to
-- the processors' caches. The thread, its pages and the caches share one store of headers.
pub mod Pages
pub mod Drain
use oxidalloc.Prelude.{ℕ, Bool, true, false, Option, ltb, ◌==◌, if◌then◌else◌}
use oxidalloc.Outcome.{Outcome, ok, panic}
use oxidalloc.Slab.Classes.{num_size_classes, block_size_of}
use oxidalloc.Slab.ThreadCache.{TlsBin}
use oxidalloc.Slab.InitBlocks.{MetaData, Blocks, remaining_blocks, init_blocks}
use oxidalloc.Slab.Interconnect.{InterConnectCache, put_at, push_to_global}

-- `pending` has the address of the pages of each class, 0 for none, and `metadata` what stands there
pub record Engine : Type 0 where
  pub tls : ℕ → TlsBin
  pub pending : ℕ → ℕ
  pub metadata : ℕ → MetaData
  pub caches : InterConnectCache

-- `thread.pending[class] = null_mut()`
abbrev pub clear_pending : (class : ℕ) → Engine → Engine
clear_pending class t = record t { pending = put_at t.pending class 0 }

-- the engine behind a call of `init_blocks` on the pages at `pages`
abbrev pub after_cut : (pages : ℕ) → Blocks → Engine → Engine
after_cut pages made t = record t {
  metadata = λ m. if m == pages then made.metadata else t.metadata m;
  caches = record (t.caches) { headers = made.headers };
}

-- `freed_magic` is the process's `FREED_MAGIC`, `cpu` what `sched_getcpu` gives
module _ (freed_magic : ℕ) (cpu : Option ℕ) (current_stamp class : ℕ) where
  -- `if count > 0 { GlobalHandler.push_to_global(..) }`
  abbrev pub hand_over : Blocks → Engine → Engine
  hand_over made t =
      if made.count == 0
      then t
      else record t { caches = push_to_global cpu class made.head made.tail made.count t.caches }

  abbrev pub cut_rest : (pages : ℕ) → Engine → Engine
  cut_rest pages t =
      let block_size = block_size_of class in
      let remaining = remaining_blocks (t.metadata pages) block_size in
      let made =
        init_blocks freed_magic class (t.metadata pages) block_size remaining current_stamp
          t.caches.headers in
      if remaining == 0 then t else hand_over made (after_cut pages made t)

  unfoldable pub drain_pending : Engine → Outcome Engine
  drain_pending t =
      let pages = t.pending class in
      if ltb class num_size_classes
      then if pages == 0 then ok t else ok (clear_pending class (cut_rest pages t))
      else panic
