-- ===== src/Slab/Refill/Cutting.antt =====
-- `bulk_fill` of src/slab/bulk_allocation.rs: the blocks that it cuts, and the push to the thread.
use native.Mathlib.Nat.{mod-eq_of_lt}
use oxidalloc.Prelude.{
  ℕ, ◌+◌, ◌*◌, ◌≤◌, ◌<◌, ◌≡◌, ◌≢◌, refl, sym, ap, ◌∙◌, arith, true, false, List, [], ◌++◌, length,
}
use oxidalloc.Outcome.{Returns}
use oxidalloc.Slab.Classes.{num_size_classes, block_size_of}
use oxidalloc.Slab.Classes.Budget.{block_size_of-fits}
use oxidalloc.Slab.ThreadCache.{Headers, ThreadLocalEngine}
use oxidalloc.Slab.ThreadCache.Chain.{mem}
use oxidalloc.Slab.ThreadCache.Stacks.{Stacks, put_stack, Holds, New, push_to_thread_tailed-Holds}
use oxidalloc.Slab.InitBlocks.{MetaData, Blocks, remaining_blocks, block_at, init_blocks}
use oxidalloc.Slab.InitBlocks.Carve.{cut, length-cut}
use oxidalloc.Slab.InitBlocks.Pages.{Cuts, init_blocks-Cuts}
use oxidalloc.Slab.Pending.{Engine, after_cut}
use oxidalloc.Slab.Pending.Pages.{Chain-same, cut-all, cut-mem, Uncut}
use oxidalloc.Slab.Refill.{max_init, bins, with_bins, push_made}

-- bins whose blocks keep their headers
pub Holds-same :
    (e : ThreadLocalEngine) (g : Headers) (stacks : Stacks)
    → ((i x : ℕ) → mem x (stacks i) ≡ true → g x ≡ e.headers x)
    → Holds e stacks
    → Holds (record e { headers = g }) stacks
Holds-same e g stacks same now = record {
  chains = λ i. Chain-same e.headers g _ (stacks i) (same i) (now.chains i);
  counted = now.counted;
  once = now.once;
  apart = now.apart;
}

pub max_init-some : (block_size : ℕ) → (0 < max_init block_size) × (max_init block_size ≤ 48)
max_init-some block_size = ground arith

-- fewer blocks of the same pages
cut-fewer :
    (base block_size n more x : ℕ)
    → n ≤ more
    → mem x (cut base block_size n 0) ≡ true
    → mem x (cut base block_size more 0) ≡ true
cut-fewer base block_size n more x less =
    cut-all base block_size (λ y. mem y (cut base block_size more 0) ≡ true) n 0
      (λ k before. cut-mem base block_size more 0 k (omega arith) (omega arith)) x

module _ (freed_magic current_stamp class : ℕ) (t : Engine) (stacks : Stacks)
    (inside : class < num_size_classes) (now : Holds (bins t) stacks) (empty : stacks class ≡ [])
    (m : MetaData) (uncut : Uncut m (block_size_of class) stacks) where
  abbrev bytes : ℕ
  bytes = block_size_of class

  some_bytes : 0 < bytes
  some_bytes = omega (arith, (block_size_of-fits class inside).1)

  abbrev pub made : Blocks
  made = init_blocks freed_magic class m bytes (max_init bytes) current_stamp t.caches.headers

  pub cuts : Cuts m bytes (max_init bytes) t.caches.headers made
  cuts =
      init_blocks-Cuts freed_magic class m bytes (max_init bytes) current_stamp t.caches.headers
        some_bytes uncut.not_null uncut.ordered uncut.bounded

  less : made.count ≤ remaining_blocks m bytes
  less = omega (arith, cuts.counted)

  -- the blocks that are cut
  abbrev pub blocks_of : List ℕ
  blocks_of = cut (m.next) bytes (made.count) 0

  new : New stacks blocks_of
  new c x h = uncut.new c x (cut-fewer m.next bytes made.count (remaining_blocks m bytes) x less h)

  kept : (i x : ℕ) → mem x (stacks i) ≡ true → made.headers x ≡ t.caches.headers x
  kept i x h = cuts.others x (λ k before e.
      let fresh =
        new i x
          (rw e (cut-mem m.next bytes made.count 0 k (omega arith) (omega (arith, before)))) in
      let clash : true ≡ false = sym h ∙ fresh in cc)

  -- The blocks that are cut begin in the pages.
  pub blocks_of-inside : (x : ℕ) → mem x blocks_of ≡ true → (m.next ≤ x) × (x < m.end)
  blocks_of-inside =
      cut-all m.next bytes (λ x. (m.next ≤ x) × (x < m.end)) made.count 0
        (λ k before.
          let fits = cuts.inside k (omega (arith, before)) in
          let exact : block_at m.next bytes k ≡ m.next + k * bytes =
            mod-eq_of_lt (omega (arith, fits, some_bytes, uncut.bounded)) in
          (omega (arith, exact), omega (arith, exact, fits, some_bytes)))

  -- The lists stay when blocks are cut.
  pub after_cut-Holds : (pages : ℕ) → Holds (bins (after_cut pages made t)) stacks
  after_cut-Holds pages = Holds-same (bins t) made.headers stacks kept now

  -- The blocks that are cut go to the thread.
  pub push_made-Holds :
      (pages : ℕ)
      → made.count ≢ 0
      → Returns
          (push_made class made (after_cut pages made t))
          (λ u. Holds (bins u) (put_stack stacks class (blocks_of ++ stacks class)))
  push_made-Holds pages some_count =
      let limit = (max_init-some bytes).1 in
      let (e, run, held) =
        push_to_thread_tailed-Holds (bins (after_cut pages made t)) stacks (after_cut-Holds pages)
          class made.head made.tail made.count blocks_of inside (cuts.chain some_count) cuts.apart
          new (sym (length-cut m.next bytes made.count 0))
          (omega
            (arith, length-cut m.next bytes made.count 0, cuts.counted, limit, ap length empty)) in
      (with_bins (after_cut pages made t) e, rw run refl, held)
