-- ===== src/Tests/SlabPending.antt =====
-- A thread with pages of class 1 at 0x8000, of which blocks of 48 bytes are left behind 0x8020, and a
-- thread without pages.
use oxidalloc.Prelude.{ℕ, Bool, true, refl, arith, some, ◌==◌, if◌then◌else◌}
use oxidalloc.Prelude.Word.{complement}
use oxidalloc.Outcome.{Returns}
use oxidalloc.Slab.Classes.{block_size_of}
use oxidalloc.Slab.InitBlocks.{MetaData}
use oxidalloc.Slab.Pending.{Engine, drain_pending}
use oxidalloc.Slab.Pending.Pages.{Uncut}
use oxidalloc.Slab.Pending.Drain.{Drains, drain_pending-Drains}
use oxidalloc.Slab.Refill.{Store}
use oxidalloc.Tests.VaBitmap.{one}
use oxidalloc.Tests.SlabInterconnect.{bare, no_blocks, bare-Caches}

abbrev pages : MetaData
pages = record { start = 0x8000; end = 0x8100; next = 0x8020 }

abbrev engine : Engine
engine = record {
  tls = λ class. record { head = 0; usage = 0 };
  pending = λ class. if class == 1 then 0x8000 else 0;
  metadata = λ p. pages;
  caches = bare;
}

pages-Uncut : Uncut pages (block_size_of 1) no_blocks
pages-Uncut = record {
  not_null = omega arith;
  ordered = omega arith;
  bounded = omega arith;
  new = λ i x h. refl;
}

drain_pending-Drains_example :
    Returns
      (drain_pending 1 (some 0) 9 1 engine)
      (Drains 1 (some 0) 9 1 engine no_blocks (omega arith) bare-Caches)
unfolding complement block_size_of
drain_pending-Drains_example =
    drain_pending-Drains 1 (some 0) 9 1 engine no_blocks (omega arith) bare-Caches
      (λ some_pages. (pages-Uncut, refl)) (omega arith)

-- a thread that has no pages
abbrev bare_engine : Engine
bare_engine = record engine { pending = λ class. 0 }

abbrev first_store : Store
first_store = record { engine = bare_engine; va = one }

abbrev any_place : (addr size : ℕ) → Bool
any_place addr size = true
