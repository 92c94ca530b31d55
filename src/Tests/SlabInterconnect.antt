-- ===== src/Tests/SlabInterconnect.antt =====
-- The caches of two processors: two blocks of class 0 in the second, behind which the first is empty.
use oxidalloc.Prelude.{
  ℕ, ◌≡◌, refl, arith, true, some, List, [], ◌∷◌, ◌++◌, ◌==◌, ==_iff, Bool-cases, inl, inr,
  if◌then◌else◌,
}
use oxidalloc.Prelude.Word.{complement}
use oxidalloc.Slab.ThreadCache.{Headers}
use oxidalloc.Slab.ThreadCache.Chain.{mem, nothing, ends, goes_on}
use oxidalloc.Slab.ThreadCache.Stacks.{Stacks, put_stack}
use oxidalloc.Slab.Interconnect.{InterConnectCache, push_at, pop_at, walk_batch, steal, try_pop}
use oxidalloc.Slab.Interconnect.Tags.{IsBlock, IsBlock-aligned}
use oxidalloc.Slab.Interconnect.Stacks.{Caches, push_at-Caches}
use oxidalloc.Slab.Interconnect.Steal.{TryPops, try_pop-TryPops}

-- block 0x3000 leads to block 0x4000
abbrev headers : Headers
headers p = record { next = if p == 0x3000 then 0x4000 else 0; class = 0; magic = 0; life_time = 0 }

abbrev pub bare : InterConnectCache
bare = record { list = λ i. 0; usage = λ i. 0; ncpu = 2; headers = headers }

abbrev pub no_blocks : Stacks
no_blocks i = []

pub bare-Caches : Caches bare no_blocks
unfolding complement
bare-Caches = record {
  holds = record {
    chains = λ i. nothing;
    counted = λ i. refl;
    once = λ i. refl;
    apart = λ c d x differ h. refl;
  };
  blocks = λ i x h. cc;
  small = λ i. omega arith;
}

abbrev pair : List ℕ
pair = 0x3000 ∷ 0x4000 ∷ []

pair-IsBlock : (x : ℕ) → mem x pair ≡ true → IsBlock x
pair-IsBlock x h = elim (Bool-cases (x == 0x3000)) [
  | inl one ↦ rw ((==_iff x 0x3000).0 one) (IsBlock-aligned 0x3000 (omega arith) (omega arith))
  | inr other ↦
      let two : (x == 0x4000) ≡ true = ground (arith, h, other) in
      rw ((==_iff x 0x4000).0 two) (IsBlock-aligned 0x4000 (omega arith) (omega arith))
]

push_at-Caches_example :
    Caches (push_at 34 0x3000 0x4000 2 bare) (put_stack no_blocks 34 (pair ++ no_blocks 34))
push_at-Caches_example =
    push_at-Caches bare no_blocks bare-Caches 34 0x3000 0x4000 2 pair
      (goes_on (λ e. omega arith) (ends (λ e. omega arith))) refl (λ i x h. refl) pair-IsBlock refl
      (omega arith)

-- the same list, as it is used below
stored : Caches (push_at 34 0x3000 0x4000 2 bare) (put_stack no_blocks 34 (pair ++ no_blocks 34))
stored =
    push_at-Caches bare no_blocks bare-Caches 34 0x3000 0x4000 2 pair
      (goes_on (λ e. omega arith) (ends (λ e. omega arith))) refl (λ i x h. refl) pair-IsBlock refl
      (omega arith)

try_pop-TryPops_example :
    TryPops
      (push_at 34 0x3000 0x4000 2 bare)
      (put_stack no_blocks 34 (pair ++ no_blocks 34))
      stored
      0
      1
      (omega arith)
      (try_pop (some 0) 0 1 (push_at 34 0x3000 0x4000 2 bare))
unfolding push_at
try_pop-TryPops_example =
    try_pop-TryPops (push_at 34 0x3000 0x4000 2 bare)
      (put_stack no_blocks 34 (pair ++ no_blocks 34)) stored 0 1 (omega arith) (some 0)
      (omega arith)

stolen : (try_pop (some 0) 0 1 (push_at 34 0x3000 0x4000 2 bare)).0 ≡ 0x3000
unfolding try_pop push_at pop_at walk_batch steal complement
stolen = refl
