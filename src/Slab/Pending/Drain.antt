-- ===== src/Slab/Pending/Drain.antt =====
-- `drain_pending` of src/slab/bulk_allocation.rs: what it gives to the processors' caches.
use native.Mathlib.Nat.{mod-eq_of_lt, mul_assoc}
use oxidalloc.Prelude.{
  ℕ, ◌+◌, ◌*◌, ◌/◌, ◌%◌, ◌^◌, ◌<◌, ◌≡◌, ◌≢◌, refl, sym, ap, ◌∙◌, subst, arith, true, false, ◌==◌,
  ==_iff, ne→==, lt→ltb, inl, inr, Bool-cases, ℕ_discrete, Option, ◌++◌, length,
}
use oxidalloc.Outcome.{Returns}
use oxidalloc.Slab.Classes.{num_size_classes, block_size_of}
use oxidalloc.Slab.Classes.Budget.{block_size_of-fits}
use oxidalloc.Slab.ThreadCache.Chain.{mem, distinct, Batch}
use oxidalloc.Slab.ThreadCache.Stacks.{Stacks, put_stack}
use oxidalloc.Slab.InitBlocks.{MetaData, Blocks, remaining_blocks, block_at, init_blocks}
use oxidalloc.Slab.InitBlocks.Carve.{cut, length-cut}
use oxidalloc.Slab.InitBlocks.Pages.{Cuts, init_blocks-Cuts}
use oxidalloc.Slab.Interconnect.{put_at, slot, or_first, push_to_global}
use oxidalloc.Slab.Interconnect.Tags.{IsBlock, IsBlock-aligned}
use oxidalloc.Slab.Interconnect.Stacks.{Caches, push_at-Caches}
use oxidalloc.Slab.Pending.Pages.{Caches-same, put_stack-same, cut-all, cut-mem, Uncut, rest_of}
use oxidalloc.Slab.Pending.{Engine, clear_pending, cut_rest, drain_pending}

module _ (freed_magic : ℕ) (cpu : Option ℕ) (current_stamp class : ℕ) (t : Engine) (stacks : Stacks)
    (inside : class < num_size_classes) (now : Caches t.caches stacks) where
  -- the place of the caches that the blocks go to, and the pages of the class
  abbrev at : ℕ
  at = slot (or_first cpu) class

  abbrev bytes : ℕ
  bytes = block_size_of class

  some_bytes : 0 < bytes
  some_bytes = omega (arith, (block_size_of-fits class inside).1)

  -- what `drain_pending` leaves
  pub data Drains : Engine → Type 0 where
    no_pages : t.pending class ≡ 0 → Drains t
    given :
        {u : Engine}
        → u.pending class ≡ 0
        → ((c : ℕ) → c ≢ class → u.pending c ≡ t.pending c)
        → u.tls ≡ t.tls
        → Caches u.caches
            (put_stack stacks at (rest_of (t.metadata (t.pending class)) bytes ++ stacks at))
        → Drains u

  module _ (m : MetaData) (uncut : Uncut m bytes stacks) (whole : m.next % 16 ≡ 0)
      (room : remaining_blocks m bytes + length (stacks at) < 2 ^ 64) where
    abbrev made : Blocks
    made =
        init_blocks freed_magic class m bytes (remaining_blocks m bytes) current_stamp
          t.caches.headers

    cuts : Cuts m bytes (remaining_blocks m bytes) t.caches.headers made
    cuts =
        init_blocks-Cuts freed_magic class m bytes (remaining_blocks m bytes) current_stamp
          t.caches.headers some_bytes uncut.not_null uncut.ordered uncut.bounded

    count : made.count ≡ remaining_blocks m bytes
    count = omega (arith, cuts.counted)

    -- the blocks of the stacks keep their headers
    kept : (i x : ℕ) → mem x (stacks i) ≡ true → made.headers x ≡ t.caches.headers x
    kept i x h = cuts.others x (λ k before e.
        let new =
          uncut.new i x
            (rw e (cut-mem m.next bytes _ 0 k (omega arith) (omega (arith, before, count)))) in
        let clash : true ≡ false = sym h ∙ new in cc)

    block_at-IsBlock : (k : ℕ) → k < remaining_blocks m bytes → IsBlock (block_at m.next bytes k)
    block_at-IsBlock k before =
        let fits = cuts.inside k (omega (arith, before, count)) in
        let whole_block = (block_size_of-fits class inside).0 in
        let units : bytes ≡ bytes / 16 * 16 = omega (arith, whole_block) in
        let product : k * bytes ≡ k * (bytes / 16) * 16 =
          ap (λ (n : ℕ). k * n) units ∙ sym (mul_assoc k (bytes / 16) 16) in
        let exact : block_at m.next bytes k ≡ m.next + k * bytes =
          mod-eq_of_lt (omega (arith, fits, some_bytes, uncut.bounded)) in
        subst IsBlock (sym exact) (
          IsBlock-aligned (m.next + k * bytes) (omega (arith, fits, some_bytes, uncut.bounded))
            (omega (arith, product, whole)))

    rest-IsBlock : (x : ℕ) → mem x (rest_of m bytes) ≡ true → IsBlock x
    rest-IsBlock =
        cut-all m.next bytes IsBlock (remaining_blocks m bytes) 0
          (λ k before. block_at-IsBlock k (omega (arith, before)))

    handed :
        remaining_blocks m bytes ≢ 0
        → Caches
            (push_to_global cpu class made.head made.tail made.count
              (record (t.caches) { headers = made.headers }))
            (put_stack stacks at (rest_of m bytes ++ stacks at))
    handed some_left =
        push_at-Caches (record (t.caches) { headers = made.headers }) stacks
          (Caches-same t.caches made.headers stacks kept now) at made.head made.tail made.count
          (rest_of m bytes)
          (subst (λ n. Batch made.headers made.tail made.head (cut (m.next) bytes n 0)) count
            (cuts.chain (λ e. some_left (sym count ∙ e))))
          (subst (λ n. distinct (cut (m.next) bytes n 0) ≡ true) count cuts.apart) uncut.new
          rest-IsBlock (count ∙ sym (length-cut m.next bytes _ 0))
          (omega (arith, length-cut m.next bytes (remaining_blocks m bytes) 0, room))

  -- the pages of the class
  abbrev left : MetaData
  left = t.metadata (t.pending class)

  unchanged :
      remaining_blocks left bytes ≡ 0
      → Caches t.caches (put_stack stacks at (rest_of left bytes ++ stacks at))
  unchanged none_left =
      subst (λ n. Caches t.caches (put_stack stacks at (cut (left.next) bytes n 0 ++ stacks at)))
        (sym none_left) (subst (Caches t.caches) (sym (put_stack-same stacks at)) now)

  cleared_here : put_at t.pending class 0 class ≡ 0
  cleared_here = let e = (==_iff class class).1 refl in rw e refl

  cleared_other : (c : ℕ) → c ≢ class → put_at t.pending class 0 c ≡ t.pending c
  cleared_other c other = let e = ne→== c class other in rw e refl

  cut_rest-Drains :
      Uncut left bytes stacks
      → left.next % 16 ≡ 0
      → remaining_blocks left bytes + length (stacks at) < 2 ^ 64
      → Drains
          (clear_pending class (cut_rest freed_magic cpu current_stamp class (t.pending class) t))
  cut_rest-Drains uncut whole room = elim (Bool-cases (remaining_blocks left bytes == 0)) [
    | inl test ↦
        let none_left : remaining_blocks left bytes ≡ 0 =
          (==_iff (remaining_blocks left bytes) 0).0 test in
        rw test (given cleared_here cleared_other refl (unchanged none_left))
    | inr test ↦
        let some_left : remaining_blocks left bytes ≢ 0 = λ e. ground (arith, test, e) in
        let some_count =
          ne→== (made left uncut whole room).count 0
            (λ e. some_left (sym (count left uncut whole room) ∙ e)) in
        rw (test, some_count)
          (given cleared_here cleared_other refl (handed left uncut whole room some_left))
  ]

  -- On processors' caches that hold a list of blocks for each place, `drain_pending` of a class returns.
  -- Where the class has pages, all the blocks that are left in them go in front of the list of the
  -- processor's place, the other lists and the thread's bins stay, and only this class's pages are
  -- forgotten; where it has none, nothing changes. Conditions: the pages are aligned and inside the
  -- address space, their blocks are in no list, and fewer than 2 ^ 64 blocks come together.
  pub drain_pending-Drains :
      (t.pending class ≢ 0 → Uncut left bytes stacks × (left.next % 16 ≡ 0))
      → remaining_blocks left bytes + length (stacks at) < 2 ^ 64
      → Returns (drain_pending freed_magic cpu current_stamp class t) Drains
  unfolding drain_pending
  drain_pending-Drains uncut room =
      let test = lt→ltb class num_size_classes inside in
      elim (ℕ_discrete (t.pending class) 0) [
        | yes no_address ↦
            let e = (==_iff (t.pending class) 0).1 no_address in
            rw (test, e) (t, refl, no_pages no_address)
        | no address ↦
            let e = ne→== (t.pending class) 0 address in
            rw (test, e) (_, refl, cut_rest-Drains (uncut address).0 (uncut address).1 room)
      ]
