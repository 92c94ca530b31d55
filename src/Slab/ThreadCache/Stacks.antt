-- ===== src/Slab/ThreadCache/Stacks.antt =====
-- The bins of src/slab/thread_local.rs as one list of blocks for each class.
use oxidalloc.Prelude.{
  ℕ, suc, ◌+◌, ◌-◌, ◌%◌, ◌^◌, ◌<◌, ◌≡◌, ◌≢◌, refl, sym, ap, ◌∙◌, arith, true, false, ◌||◌, lt→ltb,
  ◌==◌, ==_iff, ne→==, Bool-cases, if◌then◌else◌, List, [], ◌∷◌, ◌++◌, length, length-append, inl,
  inr, ℕ_discrete,
}
use oxidalloc.Outcome.{ok, Returns}
use oxidalloc.Slab.Classes.{num_size_classes}
use oxidalloc.Slab.ThreadCache.{
  ThreadLocalEngine, set_next, set_bin, pop_from_thread, push_to_thread, push_to_thread_tailed,
}
use oxidalloc.Slab.ThreadCache.Chain.{
  mem, distinct, Chain, nothing, block, Batch, Batch-mem, ends, Chain-frame, Batch-Chain,
}

-- the blocks that each class holds, the last pushed first
abbrev pub Stacks : Type 0
Stacks = ℕ → List ℕ

abbrev pub put_stack : Stacks → (class : ℕ) → List ℕ → Stacks
put_stack stacks class xs c = if c == class then xs else stacks c

-- The cache holds the stacks.
pub record Holds (e : ThreadLocalEngine) (stacks : Stacks) : Type 0 where
  pub chains : (c : ℕ) → Chain (e.headers) ((e.tls c).head) (stacks c)
  pub counted : (c : ℕ) → (e.tls c).usage ≡ length (stacks c)
  pub once : (c : ℕ) → distinct (stacks c) ≡ true
  pub apart : (c d x : ℕ) → c ≢ d → mem x (stacks c) ≡ true → mem x (stacks d) ≡ false

-- blocks that no stack has
abbrev pub New : Stacks → List ℕ → Type 0
New stacks xs = (c x : ℕ) → mem x xs ≡ true → mem x (stacks c) ≡ false

pub mem-append : (x : ℕ) (xs ys : List ℕ) → mem x (xs ++ ys) ≡ (mem x xs || mem x ys)
mem-append x [] ys = refl
mem-append x (y ∷ xs) ys = ground (arith, mem-append x xs ys)

distinct-append :
    (xs ys : List ℕ)
    → distinct xs ≡ true
    → distinct ys ≡ true
    → ((x : ℕ) → mem x xs ≡ true → mem x ys ≡ false)
    → distinct (xs ++ ys) ≡ true
distinct-append [] ys p q out = q
distinct-append (x ∷ xs) ys p q out =
    let here : mem x (x ∷ xs) ≡ true = let e = (==_iff x x).1 refl in rw e refl in
    let rest = distinct-append xs ys (ground (arith, p)) q (λ y h. out y (ground (arith, h))) in
    ground (arith, p, rest, out x here, mem-append x xs ys)

module _ (e : ThreadLocalEngine) (stacks : Stacks) (now : Holds e stacks) where
  -- a stack replaced by blocks of no other stack
  pub put_stack-apart :
      (class : ℕ) (zs : List ℕ)
      → ((d x : ℕ) → d ≢ class → mem x zs ≡ true → mem x (stacks d) ≡ false)
      → (c d x : ℕ) → c ≢ d
      → mem x (put_stack stacks class zs c) ≡ true
      → mem x (put_stack stacks class zs d) ≡ false
  put_stack-apart class zs out c d x differ = elim (ℕ_discrete c class) [
    | yes c_here ↦
        let t = (==_iff c class).1 c_here in
        let d_other : d ≢ class = λ q. differ (c_here ∙ sym q) in
        let u = ne→== d class d_other in rw (t, u) (λ h. out d x d_other h)
    | no c_other ↦
        let t = ne→== c class c_other in
        elim (ℕ_discrete d class) [
          | no d_other ↦ let u = ne→== d class d_other in rw (t, u) (λ h. now.apart c d x differ h)
          | yes d_here ↦
              let u = (==_iff d class).1 d_here in
              rw (t, u)
                (λ h. elim (Bool-cases (mem x zs)) [
                  | inr absent ↦ absent
                  | inl present ↦ let f = out c x c_other present in let no : ⊥ = cc in absurd no
                ])
        ]
  ]

  -- a batch of new blocks in front of a stack
  pub prepend-Holds :
      (class head tail : ℕ) (xs : List ℕ)
      → Batch (e.headers) tail head xs
      → distinct xs ≡ true
      → New stacks xs
      → mem tail xs ≡ true
      → (usage : ℕ) → usage ≡ length xs + length (stacks class)
      → Holds
          (set_bin e class
            (record { head = head; usage = usage })
            (set_next (e.headers) tail ((e.tls class).head)))
          (put_stack stacks class (xs ++ stacks class))
  prepend-Holds class head tail xs batch single new in_batch usage count = record {
    chains = λ c. elim (ℕ_discrete c class) [
      | yes here ↦
          let t = (==_iff c class).1 here in
          rw t (
            Batch-Chain (e.headers) tail head ((e.tls class).head) xs (stacks class) single
              (new class tail in_batch) batch (now.chains class))
      | no other ↦
          let t = ne→== c class other in
          rw t (
            Chain-frame (e.headers) tail ((e.tls class).head) ((e.tls c).head) (stacks c)
              (new c tail in_batch) (now.chains c))
    ];
    counted = λ c. elim (ℕ_discrete c class) [
      | yes here ↦
          let t = (==_iff c class).1 here in rw t (count ∙ sym (length-append xs (stacks class)))
      | no other ↦ let t = ne→== c class other in rw t (now.counted c)
    ];
    once = λ c. elim (ℕ_discrete c class) [
      | yes here ↦
          let t = (==_iff c class).1 here in
          rw t (distinct-append xs (stacks class) single (now.once class) (λ x h. new class x h))
      | no other ↦ let t = ne→== c class other in rw t (now.once c)
    ];
    apart = put_stack-apart class (xs ++ stacks class) (λ d x other h.
        elim (Bool-cases (mem x xs)) [
          | inl pushed ↦ new d x pushed
          | inr older ↦
              now.apart class d x (λ q. other (sym q))
                (ground (arith, h, older, mem-append x xs (stacks class)))
        ]);
  }

  -- Pushing a chain of new blocks to a class puts them in front of its stack.
  pub push_to_thread_tailed-Holds :
      (class head tail batch_size : ℕ) (xs : List ℕ)
      → class < num_size_classes
      → Batch (e.headers) tail head xs
      → distinct xs ≡ true
      → New stacks xs
      → batch_size ≡ length xs
      → length xs + length (stacks class) < 2 ^ 64
      → Returns
          (push_to_thread_tailed e class head tail batch_size)
          (λ r. Holds r (put_stack stacks class (xs ++ stacks class)))
  unfolding push_to_thread_tailed
  push_to_thread_tailed-Holds class head tail batch_size xs inside batch single new size fits =
      let test = lt→ltb class num_size_classes inside in
      let usage = ((e.tls class).usage + batch_size) % 2 ^ 64 in
      (
        set_bin e class (record { head = head; usage = usage })
            (set_next (e.headers) tail ((e.tls class).head)),
        rw test refl,
        prepend-Holds class head tail xs batch single new (Batch-mem (e.headers) tail head xs batch)
            usage (omega (arith, now.counted class)),
      )

  -- Pushing a new block to a class puts it in front of its stack.
  pub push_to_thread-Holds :
      (class p : ℕ)
      → class < num_size_classes
      → p ≢ 0
      → ((c : ℕ) → mem p (stacks c) ≡ false)
      → suc (length (stacks class)) < 2 ^ 64
      → Returns
          (push_to_thread e class p)
          (λ r. Holds r (put_stack stacks class (p ∷ stacks class)))
  unfolding push_to_thread
  push_to_thread-Holds class p inside some_block new fits =
      let test = lt→ltb class num_size_classes inside in
      let usage = ((e.tls class).usage + 1) % 2 ^ 64 in
      (
        set_bin e class (record { head = p; usage = usage })
            (set_next (e.headers) p ((e.tls class).head)),
        rw test refl,
        prepend-Holds class p p (p ∷ []) (ends some_block) refl
            (λ c x h. let same : x ≡ p = ground (arith, h) in rw same (new c))
            (Batch-mem (e.headers) p p (p ∷ []) (ends some_block)) usage
            (omega (arith, now.counted class)),
      )

  -- what `pop_from_thread` gives: null from an empty stack, else its top
  pub data Pops (class : ℕ) : ℕ × ThreadLocalEngine → Type 0 where
    null : stacks class ≡ [] → Pops class (0, e)
    top :
        {p : ℕ} {xs : List ℕ} {r : ThreadLocalEngine}
        → p ≢ 0
        → stacks class ≡ p ∷ xs
        → Holds r (put_stack stacks class xs)
        → Pops class (p, r)

  after_pop : (class : ℕ) → ThreadLocalEngine
  after_pop class =
      let bin = e.tls class in
      set_bin e class (record { head = (e.headers (bin.head)).next; usage = bin.usage - 1 })
        (e.headers)

  after_pop-Holds :
      (class p : ℕ) (xs : List ℕ)
      → (e.tls class).head ≡ p
      → stacks class ≡ p ∷ xs
      → Chain (e.headers) ((e.headers p).next) xs
      → Holds (after_pop class) (put_stack stacks class xs)
  unfolding after_pop
  after_pop-Holds class p xs head stack rest =
      let size = ap length stack in
      let single = ap distinct stack in
      record {
        chains = λ c. elim (ℕ_discrete c class) [
          | yes here ↦ let t = (==_iff c class).1 here in rw (t, head) rest
          | no other ↦ let t = ne→== c class other in rw t (now.chains c)
        ];
        counted = λ c. elim (ℕ_discrete c class) [
          | yes here ↦
              let t = (==_iff c class).1 here in rw t (ground (arith, now.counted class, size))
          | no other ↦ let t = ne→== c class other in rw t (now.counted c)
        ];
        once = λ c. elim (ℕ_discrete c class) [
          | yes here ↦
              let t = (==_iff c class).1 here in rw t (ground (arith, now.once class, single))
          | no other ↦ let t = ne→== c class other in rw t (now.once c)
        ];
        apart = put_stack-apart class xs (λ d x other h.
            let inside : mem x (stacks class) ≡ true = rw stack (ground (arith, h)) in
            now.apart class d x (λ q. other (sym q)) inside);
      }

  pop_cases :
      (class p : ℕ) (xs : List ℕ)
      → class < num_size_classes
      → (e.tls class).head ≡ p
      → stacks class ≡ xs
      → Chain (e.headers) p xs
      → Returns (pop_from_thread e class) (Pops class)
  unfolding pop_from_thread after_pop
  pop_cases class p xs inside head stack nothing =
      let test = lt→ltb class num_size_classes inside in
      let no_head : (e.tls class).head == 0 ≡ true = ground (arith, head) in
      ((0, e), rw (test, no_head) refl, null stack)
  pop_cases class p xs inside head stack (block some_block rest) =
      let test = lt→ltb class num_size_classes inside in
      let some_head : (e.tls class).head == 0 ≡ false =
        ne→== _ 0 (λ q. some_block (sym head ∙ q)) in
      let counted : (e.tls class).usage == 0 ≡ false =
        ne→== _ 0 (λ q. let n = now.counted class in let m = ap length stack in omega arith) in
      (
        (p, after_pop class),
        rw (test, some_head, counted) (ap (λ (q : ℕ). ok (q, after_pop class)) head),
        top some_block stack (after_pop-Holds class p _ head stack rest),
      )

  -- `pop_from_thread` takes the top of the class's stack, and gives null when it has no block.
  pub pop_from_thread-Pops :
      (class : ℕ) → class < num_size_classes → Returns (pop_from_thread e class) (Pops class)
  pop_from_thread-Pops class inside =
      pop_cases class _ (stacks class) inside refl refl (now.chains class)
