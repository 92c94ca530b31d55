-- ===== src/Slab/Refill/Renew.antt =====
-- New pages of `bulk_fill`, src/slab/bulk_allocation.rs, in a run that src/va/bitmap.rs has allotted.
use native.Mathlib.Nat.{mod-eq_of_lt, lt-div-mul-add, zero-mul}
use oxidalloc.Prelude.{
  ℕ, ◌+◌, ◌-◌, ◌*◌, ◌/◌, ◌%◌, ◌^◌, ◌≤◌, ◌<◌, ◌≡◌, refl, sym, ap, ◌∙◌, arith, true, false, ◌&&◌, leb,
  ltb, ==_iff, inl, inr, Bool-cases, ℕ_discrete,
}
use oxidalloc.Va.Segment.Defs.{blocks}
use oxidalloc.Va.Bitmap.{VaBitmap}
use oxidalloc.Va.Bitmap.Blocks.{Allotted}
use oxidalloc.Slab.Classes.{num_size_classes, block_size_of}
use oxidalloc.Slab.Classes.Budget.{block_size_of-fits}
use oxidalloc.Slab.ThreadCache.Chain.{mem}
use oxidalloc.Slab.ThreadCache.Stacks.{Stacks, Holds}
use oxidalloc.Slab.InitBlocks.{MetaData, remaining_blocks, block_at}
use oxidalloc.Slab.InitBlocks.Pages.{block-fits}
use oxidalloc.Slab.Pending.{Engine}
use oxidalloc.Slab.Pending.Pages.{cut-all, Uncut}
use oxidalloc.Slab.Refill.{metadata_size, bins, pages_size, new_pages}
use oxidalloc.Slab.Refill.Cutting.{Holds-same}
use oxidalloc.Slab.Refill.Fill.{pages_size-fits}
use oxidalloc.Slab.Refill.Fresh.{InUse, Placed, below, outside_run, run-Placed, Placed-kept}
use oxidalloc.BigAllocation.{cleared}

module _ (class : ℕ) (inside : class < num_size_classes) (stacks : Stacks) (b b' : VaBitmap)
    (hint k first : ℕ) (a : Allotted b (blocks (pages_size class)) hint b' k first)
    (used_pages : InUse b stacks) where
  abbrev total : ℕ
  total = pages_size class

  -- no block of the lists is in the new pages
  apart : (c x : ℕ) → hint ≤ x → x < hint + total → mem x (stacks c) ≡ false
  apart c x from to = elim (Bool-cases (mem x (stacks c))) [
    | inr absent ↦ absent
    | inl present ↦
        let limit = (pages_size-fits class inside).0 in
        absurd (
          outside_run b b' (blocks total) hint k first a x (used_pages c x present) from
            (omega (arith, limit)))
  ]

  end : hint + total < 2 ^ 64
  end =
      let limit = (pages_size-fits class inside).0 in
      omega (arith, limit, below b b' (blocks total) hint k first a)

  kept :
      (t : Engine) (c x : ℕ)
      → mem x (stacks c) ≡ true
      → cleared (t.caches.headers) hint total x ≡ t.caches.headers x
  kept t c x h = elim (Bool-cases (leb hint x && ltb x (hint + total))) [
    | inr out ↦ rw out refl
    | inl within ↦
        let absent = apart c x (ground (arith, within)) (ground (arith, within)) in
        let clash : true ≡ false = sym h ∙ absent in cc
  ]

  -- The bins keep their lists.
  pub new_pages-Holds :
      (t : Engine) → Holds (bins t) stacks → Holds (bins (new_pages hint total t)) stacks
  new_pages-Holds t now =
      Holds-same (bins t) (cleared (t.caches.headers) hint total) stacks (kept t) now

  -- the metadata at the beginning of the new pages
  abbrev pub first_meta : MetaData
  first_meta = record {
    start = hint;
    end = (hint + total) % 2 ^ 64;
    next = (hint + metadata_size) % 2 ^ 64;
  }

  pub new_pages-metadata : (t : Engine) → (new_pages hint total t).metadata hint ≡ first_meta
  new_pages-metadata t = let e = (==_iff hint hint).1 refl in rw e refl

  end_exact : first_meta.end ≡ hint + total
  end_exact = mod-eq_of_lt end

  next_exact : first_meta.next ≡ hint + metadata_size
  next_exact =
      let room = (pages_size-fits class inside).1 in mod-eq_of_lt (omega (arith, room, end))

  -- The new pages are in use.
  pub first_meta-Placed : (x : ℕ) → first_meta.next ≤ x → x < first_meta.end → Placed b' x
  first_meta-Placed x from to =
      let limit = (pages_size-fits class inside).0 in
      run-Placed b b' (blocks total) hint k first a x (omega (arith, next_exact))
        (omega (arith, limit, end_exact))

  pub kept-InUse : InUse b' stacks
  kept-InUse c x h = Placed-kept b b' (blocks total) hint k first a x (used_pages c x h)

  some_bytes : 0 < block_size_of class
  some_bytes = omega (arith, (block_size_of-fits class inside).1)

  -- The new pages can be cut.
  pub first_meta-Uncut : Uncut first_meta (block_size_of class) stacks
  first_meta-Uncut =
      let room = (pages_size-fits class inside).1 in
      let start : 0 < first_meta.next = omega (arith, next_exact) in
      let order : first_meta.next ≤ first_meta.end = omega (arith, next_exact, end_exact, room) in
      let bound : first_meta.end < 2 ^ 64 = omega (arith, end_exact, end) in
      record {
        not_null = start;
        ordered = order;
        bounded = bound;
        new = λ c.
            cut-all first_meta.next (block_size_of class) (λ x. mem x (stacks c) ≡ false)
              (remaining_blocks first_meta (block_size_of class)) 0
              (λ n before.
                let fits =
                  block-fits 0 class first_meta (block_size_of class) 0 0
                    (λ p. record { next = 0; class = 0; magic = 0; life_time = 0 }) some_bytes start
                    order bound (remaining_blocks first_meta (block_size_of class)) n (omega arith)
                    (omega (arith, before)) in
                let exact : block_at first_meta.next (block_size_of class) n
                    ≡ first_meta.next + n * block_size_of class =
                  mod-eq_of_lt (omega (arith, fits, bound, some_bytes)) in
                apart c _ (omega (arith, exact, next_exact))
                  (omega (arith, exact, fits, end_exact, some_bytes)));
      }

  -- and hold a block
  pub first_meta-some : 0 < remaining_blocks first_meta (block_size_of class)
  first_meta-some =
      let bytes = block_size_of class in
      let room = (pages_size-fits class inside).1 in
      elim (ℕ_discrete (remaining_blocks first_meta bytes) 0) [
        | no some_left ↦ omega (arith, some_left)
        | yes none_left ↦
            let left = first_meta.end - first_meta.next in
            let short : left < left / bytes * bytes + bytes = lt-div-mul-add some_bytes in
            let nothing : left / bytes * bytes ≡ 0 =
              ap (λ (q : ℕ). q * bytes) none_left ∙ zero-mul bytes in
            absurd (omega (arith, short, nothing, end_exact, next_exact, room))
      ]
