-- ===== src/Slab/Refill/Fill.antt =====
-- What `bulk_fill` of src/slab/bulk_allocation.rs leaves.
use oxidalloc.Prelude.{
  ℕ, ◌+◌, ◌^◌, ◌≤◌, ◌<◌, ◌≡◌, ◌≢◌, refl, ap, ◌∙◌, arith, true, false, ◌&&◌, leb, ◌==◌, ne→==, List,
  [], ◌++◌, length, Option, inl, inr, Bool-cases,
}
use oxidalloc.Prelude.Word.{complement}
use oxidalloc.Outcome.{Returns}
use oxidalloc.Va.Bitmap.{VaBitmap}
use oxidalloc.Slab.Classes.{num_size_classes, block_size_of, tls_max_blocks}
use oxidalloc.Slab.Classes.Budget.{every, every_lem, tls_max_blocks-budget}
use oxidalloc.Slab.ThreadCache.Stacks.{Stacks, put_stack, Holds}
use oxidalloc.Slab.InitBlocks.{remaining_blocks}
use oxidalloc.Slab.InitBlocks.Carve.{length-cut}
use oxidalloc.Slab.Pending.{Engine, after_cut}
use oxidalloc.Slab.Pending.Pages.{Uncut}
use oxidalloc.Slab.Refill.{
  metadata_size, bins, push_made, pages_size, cut_some, forget_empty, keep_rest, fill_pages,
}
use oxidalloc.Va.Bitmap.{VaBitmap}
use oxidalloc.Slab.Refill.Fresh.{Placed, InUse, prepend-InUse}
use oxidalloc.Slab.Refill.Cutting.{
  max_init-some, made, cuts, blocks_of, blocks_of-inside, push_made-Holds,
}
use oxidalloc.Slab.Refill.Fresh.{Placed}

sizes_fit :
    every 34
      (λ c. leb (pages_size c) (2 ^ 32) && leb (metadata_size + block_size_of c) (pages_size c))
    ≡ true
unfolding every pages_size block_size_of complement
sizes_fit = refl

-- new pages have room for a block, and their size does not wrap
pub pages_size-fits :
    (class : ℕ)
    → class < num_size_classes
    → (pages_size class ≤ 2 ^ 32) × (metadata_size + block_size_of class ≤ pages_size class)
pages_size-fits class inside = let e = every_lem 34 _ class sizes_fit inside in ground (arith, e)

module _ (freed_magic : ℕ) (cpu : Option ℕ) (current_stamp class : ℕ)
    (inside : class < num_size_classes) (stacks : Stacks) (empty : stacks class ≡ []) where
  -- the thread has some blocks of the class, at most 48, and no other list changes
  pub record Refilled (va : VaBitmap) (t : Engine) : Type 0 where
    pub new_blocks : List ℕ
    pub some_blocks : 0 < length new_blocks
    pub few : length new_blocks ≤ 48
    pub holds : Holds (bins t) (put_stack stacks class (new_blocks ++ stacks class))
    pub in_use : InUse va (put_stack stacks class (new_blocks ++ stacks class))

  same_bins : (va : VaBitmap) (t u : Engine) → bins u ≡ bins t → Refilled va t → Refilled va u
  same_bins va t u same r = record {
    new_blocks = r.new_blocks;
    some_blocks = r.some_blocks;
    few = r.few;
    holds = rw same r.holds;
    in_use = r.in_use;
  }

  keep_rest-Refilled :
      (va : VaBitmap) (pages : ℕ) (u : Engine)
      → Refilled va u
      → Refilled va (keep_rest freed_magic cpu current_stamp class pages u)
  keep_rest-Refilled va pages u r =
      elim (Bool-cases (remaining_blocks (u.metadata pages) (block_size_of class) == 0)) [
        | inl e ↦ rw e r
        | inr e ↦ rw e (same_bins va u _ refl r)
      ]

  pub forget_empty-Refilled :
      (va : VaBitmap) (pages : ℕ) (u : Engine)
      → Refilled va u
      → Refilled va (forget_empty freed_magic cpu current_stamp class pages u)
  forget_empty-Refilled va pages u r =
      elim (Bool-cases (remaining_blocks (u.metadata pages) (block_size_of class) == 0)) [
        | inl e ↦ rw e (same_bins va u _ refl r)
        | inr e ↦ rw e r
      ]

  module _ (t : Engine) (now : Holds (bins t) stacks) (va : VaBitmap) (old : InUse va stacks) where
    pub pushed-Refilled :
        (pages : ℕ)
        (own : (x : ℕ) → (t.metadata pages).next ≤ x → x < (t.metadata pages).end → Placed va x)
        (uncut : Uncut (t.metadata pages) (block_size_of class) stacks)
        → (cut_some freed_magic cpu current_stamp class (t.metadata pages) t).count ≢ 0
        → Returns
            (push_made class (cut_some freed_magic cpu current_stamp class (t.metadata pages) t) (
              after_cut pages
                (cut_some freed_magic cpu current_stamp class (t.metadata pages) t)
                t))
            (Refilled va)
    pushed-Refilled pages own uncut some_count =
        let m = t.metadata pages in
        let (u, run, held) =
          push_made-Holds freed_magic current_stamp class t stacks inside now empty m uncut pages
            some_count in
        let c = cuts freed_magic current_stamp class t stacks inside now empty m uncut in
        let n = (made freed_magic current_stamp class t stacks inside now empty m uncut).count in
        let size = length-cut m.next (block_size_of class) n 0 in
        (
          u,
          run,
          record {
            new_blocks =
                blocks_of freed_magic current_stamp class t stacks inside now empty m uncut;
            some_blocks = omega (arith, size, some_count);
            few = omega (arith, size, c.counted, (max_init-some (block_size_of class)).1);
            holds = held;
            in_use = prepend-InUse va stacks class _ old (λ x h.
                let at =
                  blocks_of-inside freed_magic current_stamp class t stacks inside now empty m uncut
                    x h in
                own x at.0 at.1);
          },
        )

    -- on pages with a block left the end of `bulk_fill` refills
    pub fill_pages-Refilled :
        (pages : ℕ)
        (own : (x : ℕ) → (t.metadata pages).next ≤ x → x < (t.metadata pages).end → Placed va x)
        → Uncut (t.metadata pages) (block_size_of class) stacks
        → 0 < remaining_blocks (t.metadata pages) (block_size_of class)
        → Returns
            (fill_pages freed_magic cpu current_stamp class pages t)
            (λ r. (r.0 ≡ true) × Refilled va (r.1))
    unfolding fill_pages
    fill_pages-Refilled pages own uncut some_left =
        let m = t.metadata pages in
        let c = cuts freed_magic current_stamp class t stacks inside now empty m uncut in
        let limit = (max_init-some (block_size_of class)).0 in
        let made_now = made freed_magic current_stamp class t stacks inside now empty m uncut in
        let some_count : made_now.count ≢ 0 = λ e. omega (arith, c.counted, limit, some_left, e) in
        let test = ne→== made_now.count 0 some_count in
        let usage : leb (tls_max_blocks class) ((t.tls class).usage) ≡ false =
          let none_held : (t.tls class).usage ≡ 0 = now.counted class ∙ ap length empty in
          let some_room = (tls_max_blocks-budget class inside).0 in
          ground (arith, none_held, some_room) in
        let (u, run, full) = pushed-Refilled pages own uncut some_count in
        rw (test, usage)
          (rw run (
            (true, keep_rest freed_magic cpu current_stamp class pages u),
            refl,
            (refl, keep_rest-Refilled va pages u full),
          ))
