-- ===== src/Slab/Interconnect/Pop.antt =====
-- `pop` of src/slab/interconnect.rs on the list of its place.
use oxidalloc.Prelude.{
  ℕ, ◌+◌, ◌-◌, ◌%◌, ◌^◌, ◌≤◌, ◌<◌, ◌≡◌, ◌≢◌, refl, sym, ap, ◌∙◌, subst, arith, true, false, ◌⊎◌,
  inl, inr, ◌==◌, ==_iff, ne→==, List, [], ◌∷◌, ◌++◌, length, length-append, append-nil, Option,
  none, some, ℕ_discrete,
}
use oxidalloc.Slab.ThreadCache.{set_next, set_bin}
use oxidalloc.Slab.ThreadCache.Chain.{
  mem, distinct, Chain, nothing, Batch, Batch-mem, Chain-frame, Batch-Chain,
}
use oxidalloc.Slab.ThreadCache.Stacks.{Stacks, put_stack, Holds, put_stack-apart, mem-append}
use oxidalloc.Slab.Interconnect.{InterConnectCache, head_ptr, walk_batch, take_batch, pop_at}
use oxidalloc.Slab.Interconnect.Tags.{IsBlock, IsBlock-aligned}
use oxidalloc.Slab.Interconnect.Batches.{Chain-cases, walk_batch-Splits}
use oxidalloc.Slab.Interconnect.Stacks.{view, Caches, distinct_parts, next_tag, view_after}

module _ (c : InterConnectCache) (stacks : Stacks) (now : Caches c stacks) where
  -- What a pop of up to `batch_size` blocks gives: null where the place is empty, else the first blocks
  -- of the place's stack as a chain that ends in null, as many as asked for if there are so many.
  pub data Pops (at batch_size : ℕ) : Option ℕ × InterConnectCache → Type 0 where
    empty : stacks at ≡ [] → Pops at batch_size (none, c)
    popped :
        {head : ℕ} {c' : InterConnectCache} (ys zs : List ℕ)
        → head ≢ 0
        → stacks at ≡ ys ++ zs
        → Chain c'.headers head ys
        → length ys ≤ batch_size
        → (length ys ≡ batch_size) ⊎ (zs ≡ [])
        → Caches c' (put_stack stacks at zs)
        → Pops at batch_size (some head, c')

  module _ (at head tail count : ℕ) (ys zs : List ℕ) (parts : stacks at ≡ ys ++ zs)
      (batch : Batch c.headers tail head ys) (counted : count ≡ length ys)
      (rest : Chain c.headers (c.headers tail).next zs) where
    apart_parts :
        (distinct ys ≡ true) × (distinct zs ≡ true) × ((x : ℕ) → mem x ys ≡ true → mem x zs ≡ false)
    apart_parts = distinct_parts ys zs (sym (ap distinct parts) ∙ now.holds.once at)

    later_in : (x : ℕ) → mem x zs ≡ true → mem x (stacks at) ≡ true
    later_in x h = rw parts (ground (arith, mem-append x ys zs, h))

    taken_in : (x : ℕ) → mem x ys ≡ true → mem x (stacks at) ≡ true
    taken_in x h = rw parts (ground (arith, mem-append x ys zs, h))

    new_head : IsBlock (c.headers tail).next
    new_head = elim (Chain-cases c.headers (c.headers tail).next zs rest) [
      | inl (nil, none_left) ↦ rw nil (IsBlock-aligned 0 (omega arith) (omega arith))
      | inr (ws, some_block, e, more) ↦ now.blocks at _ (
          later_in _
            (rw e (ground (arith, (==_iff (c.headers tail).next (c.headers tail).next).1 refl))))
    ]

    tail_taken : mem tail ys ≡ true
    tail_taken = Batch-mem c.headers tail head ys batch

    Chain-taken : Chain (set_next c.headers tail 0) head ys
    Chain-taken =
        subst (Chain (set_next c.headers tail 0) head) (append-nil ys)
          (Batch-Chain c.headers tail head 0 ys [] apart_parts.0 refl batch nothing)

    out_of : (i : ℕ) → i ≢ at → mem tail (stacks i) ≡ false
    out_of i other = now.holds.apart at i tail (λ e. other (sym e)) (taken_in tail tail_taken)

    view_popped :
        view (take_batch at head (tail, count) c)
        ≡ set_bin
            (view c)
            at
            (record {
              head = (c.headers tail).next;
              usage = (c.usage at + 2 ^ 64 - count) % 2 ^ 64;
            })
            (set_next c.headers tail 0)
    view_popped =
        view_after c stacks now at (c.headers tail).next _ ((c.usage at + 2 ^ 64 - count) % 2 ^ 64)
          (set_next c.headers tail 0) new_head (next_tag (c.list at))

    popped-Holds :
        Holds
          (set_bin
            (view c)
            at
            (record {
              head = (c.headers tail).next;
              usage = (c.usage at + 2 ^ 64 - count) % 2 ^ 64;
            })
            (set_next c.headers tail 0))
          (put_stack stacks at zs)
    popped-Holds = record {
      chains = λ i. elim (ℕ_discrete i at) [
        | yes here ↦
            let e = (==_iff i at).1 here in
            rw e (Chain-frame c.headers tail 0 _ zs (apart_parts.2 tail tail_taken) rest)
        | no other ↦
            let e = ne→== i at other in
            rw e (Chain-frame c.headers tail 0 _ (stacks i) (out_of i other) (now.holds.chains i))
      ];
      counted = λ i. elim (ℕ_discrete i at) [
        | yes here ↦
            let e = (==_iff i at).1 here in
            let whole : length (stacks at) ≡ length ys + length zs =
              ap length parts ∙ length-append ys zs in
            rw e (omega (arith, whole, now.holds.counted at, counted, now.small at))
        | no other ↦ let e = ne→== i at other in rw e (now.holds.counted i)
      ];
      once = λ i. elim (ℕ_discrete i at) [
        | yes here ↦ let e = (==_iff i at).1 here in rw e (apart_parts.1)
        | no other ↦ let e = ne→== i at other in rw e (now.holds.once i)
      ];
      apart =
          put_stack-apart (view c) stacks now.holds at zs
            (λ d x other h. now.holds.apart at d x (λ q. other (sym q)) (later_in x h));
    }

    popped-Caches : Caches (take_batch at head (tail, count) c) (put_stack stacks at zs)
    popped-Caches = record {
      holds = subst (λ e. Holds e (put_stack stacks at zs)) (sym view_popped) popped-Holds;
      blocks = λ i x. elim (ℕ_discrete i at) [
        | yes here ↦ let e = (==_iff i at).1 here in rw e (λ h. now.blocks at x (later_in x h))
        | no other ↦ let e = ne→== i at other in rw e (now.blocks i x)
      ];
      small = λ i. elim (ℕ_discrete i at) [
        | yes here ↦
            let e = (==_iff i at).1 here in
            let whole : length (stacks at) ≡ length ys + length zs =
              ap length parts ∙ length-append ys zs in
            rw e (omega (arith, whole, now.small at))
        | no other ↦ let e = ne→== i at other in rw e (now.small i)
      ];
    }

  module _ (at batch_size : ℕ) where
    pop_none : stacks at ≡ [] → pop_at at batch_size c ≡ (none, c)
    unfolding pop_at
    pop_none none_there =
        let none_used : (c.usage at == 0) ≡ true =
          (==_iff (c.usage at) 0).1 (now.holds.counted at ∙ ap length none_there) in
        rw none_used refl

    pop_some :
        (y : ℕ) (ys : List ℕ)
        → stacks at ≡ y ∷ ys
        → head_ptr (c.list at) ≢ 0
        → pop_at at batch_size c ≡ (
          some (head_ptr (c.list at)),
          take_batch at
              (head_ptr (c.list at))
              (walk_batch (batch_size - 1) c.headers (head_ptr (c.list at)) 1)
              c,
        )
    unfolding pop_at
    pop_some y ys e some_block =
        let used : (c.usage at == 0) ≡ false =
          ne→== (c.usage at) 0 (λ q. omega (arith, now.holds.counted at, ap length e)) in
        let head_there : (head_ptr (c.list at) == 0) ≡ false = ne→== _ 0 some_block in
        rw (used, head_there) refl

    -- `pop` takes up to `batch_size` blocks off the stack of its place, as a chain that ends in null.
    pub pop_at-Pops : 0 < batch_size → Pops at batch_size (pop_at at batch_size c)
    pop_at-Pops some_wanted =
        elim (Chain-cases c.headers (head_ptr (c.list at)) (stacks at) (now.holds.chains at)) [
          | inl (nil, none_there) ↦ rw (pop_none none_there) (empty none_there)
          | inr (xs, some_block, e, later) ↦
              let head = head_ptr (c.list at) in
              let (taken, splits, count) =
                walk_batch-Splits c.headers (batch_size - 1) head xs 1 some_block later in
              let w = walk_batch (batch_size - 1) c.headers head 1 in
              let parts = e ∙ splits.parts in
              let counted : w.1 ≡ length splits.ys = omega (arith, splits.counted, count) in
              rw (pop_some head xs e some_block) (
                popped splits.ys splits.zs some_block parts
                  (Chain-taken at head w.0 w.1 splits.ys splits.zs parts splits.batch counted
                    splits.rest)
                  (omega (arith, splits.few))
                  (elim splits.all [ inl most ↦ inl (omega arith) | inr none_left ↦ inr none_left ])
                  (popped-Caches at head w.0 w.1 splits.ys splits.zs parts splits.batch counted
                    splits.rest))
        ]
