-- ===== src/Slab/InitBlocks/Pages.antt =====
-- `init_blocks` of src/slab/bulk_allocation.rs: what it leaves of the pages.
use native.Mathlib.Nat.{suc-mul, mod-eq_of_lt, mul-le-mul_right, div-mul-le_self}
use oxidalloc.Prelude.{
  ℕ, suc, ◌+◌, ◌-◌, ◌*◌, ◌^◌, min, ◌≤◌, ◌<◌, ◌≡◌, ◌≢◌, refl, sym, subst, arith, true, ◌==◌, inl,
  inr, Bool-cases,
}
use oxidalloc.Slab.ThreadCache.{Headers}
use oxidalloc.Slab.ThreadCache.Chain.{distinct, Batch}
use oxidalloc.Slab.InitBlocks.{
  MetaData, remaining_blocks, block_at, Carving, carve, Blocks, init_blocks,
}
use oxidalloc.Slab.InitBlocks.Carve.{
  cut, cut-distinct, Carved, fresh, grown, carve-Carved, carve-other,
}

Carved-Batch :
    (base block_size : ℕ) (c : Carving) (n : ℕ)
    → n ≢ 0
    → Carved base block_size c 0 n
    → Batch (c.headers) (c.tail) (c.head) (cut base block_size n 0)
Carved-Batch base block_size c n some_count (fresh no_head) = absurd (some_count refl)
Carved-Batch base block_size c n some_count (grown some_head batch) = batch

-- what `init_blocks` gives
pub record Cuts (metadata : MetaData) (block_size max_blocks : ℕ) (h : Headers) (r : Blocks)
    : Type 0 where
  pub counted : r.count ≡ min (remaining_blocks metadata block_size) max_blocks
  pub chain :
      r.count ≢ 0 → Batch (r.headers) (r.tail) (r.head) (cut (metadata.next) block_size (r.count) 0)
  pub apart : distinct (cut (metadata.next) block_size (r.count) 0) ≡ true
  pub inside : (k : ℕ) → k < r.count → metadata.next + k * block_size + block_size ≤ metadata.end
  pub moved : r.metadata.next ≡ metadata.next + r.count * block_size
  pub others :
      (p : ℕ)
      → ((k : ℕ) → k < r.count → p ≢ block_at (metadata.next) block_size k)
      → r.headers p ≡ h p

module _ (freed_magic class : ℕ) (metadata : MetaData) (block_size max_blocks current_stamp : ℕ)
    (h : Headers) (some_bytes : 0 < block_size) (not_null : 0 < metadata.next)
    (ordered : metadata.next ≤ metadata.end) (bounded : metadata.end < 2 ^ 64) where
  -- `count` blocks are inside the pages
  pub count-fits :
      (count : ℕ)
      → count ≤ remaining_blocks metadata block_size
      → metadata.next + count * block_size ≤ metadata.end
  count-fits count less = omega (
    arith,
    ordered,
    mul-le-mul_right block_size less,
    div-mul-le_self (metadata.end - metadata.next) block_size,
  )

  pub block-fits :
      (count k : ℕ)
      → count ≤ remaining_blocks metadata block_size
      → k < count
      → metadata.next + k * block_size + block_size ≤ metadata.end
  block-fits count k less before =
      let more : suc k ≤ count = before in
      omega (arith, count-fits count less, suc-mul k block_size, mul-le-mul_right block_size more)

  -- On pages inside the address space `init_blocks` cuts as many blocks as are left, up to the limit,
  -- one behind the other: they are one chain from head to tail, distinct and inside the pages, the
  -- next block begins behind them, and no other header changes.
  pub init_blocks-Cuts :
      Cuts metadata block_size max_blocks h
        (init_blocks freed_magic class metadata block_size max_blocks current_stamp h)
  unfolding init_blocks
  init_blocks-Cuts =
      let remaining = remaining_blocks metadata block_size in
      elim (Bool-cases (remaining == 0)) [
        | inl nothing_left ↦ rw nothing_left (record {
          counted = ground (arith, nothing_left);
          chain = λ some_count. absurd (some_count refl);
          apart = refl;
          inside = λ k before. absurd (omega arith);
          moved = omega arith;
          others = λ p out. refl;
        })
        | inr left ↦
            let count = min remaining max_blocks in
            let base = metadata.next in
            let less : count ≤ remaining = omega arith in
            let fits = count-fits count less in
            let none_after : count + 0 ≡ count = omega arith in
            let fits' : base + (count + 0) * block_size ≤ 2 ^ 64 =
              subst (λ (k : ℕ). base + k * block_size ≤ 2 ^ 64) (sym none_after)
                (omega (arith, fits, bounded)) in
            let begun : Carving = record { head = 0; tail = 0; headers = h } in
            let done = carve class freed_magic base block_size current_stamp count begun in
            let carved =
              carve-Carved base block_size class freed_magic current_stamp some_bytes not_null count
                0 begun fits' (fresh refl) in
            rw left (record {
              counted = refl;
              chain = λ some_count.
                  Carved-Batch base block_size done count some_count
                    (subst (λ k. Carved base block_size done 0 k) none_after carved);
              apart =
                  cut-distinct base block_size some_bytes count 0 (omega (arith, fits, bounded));
              inside = λ k before. block-fits count k less before;
              moved = mod-eq_of_lt (omega (arith, fits, bounded));
              others = λ p out.
                  carve-other base block_size class freed_magic current_stamp some_bytes not_null
                    count p begun out;
            })
      ]
