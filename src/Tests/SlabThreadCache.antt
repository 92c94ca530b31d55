-- ===== src/Tests/SlabThreadCache.antt =====
-- A cache without blocks, one with one block in class 1, and a chain of two blocks for it.
use oxidalloc.Prelude.{
  ℕ, ◌≡◌, ◌≢◌, refl, arith, false, [], ◌∷◌, ◌++◌, ◌==◌, ne→==, Bool-cases, inl, inr, if◌then◌else◌,
}
use oxidalloc.Outcome.{Returns}
use oxidalloc.Slab.ThreadCache.{
  Headers, ThreadLocalEngine, set_next, set_bin, pop_from_thread, push_to_thread,
  push_to_thread_tailed,
}
use oxidalloc.Slab.ThreadCache.Chain.{mem, nothing, ends, goes_on}
use oxidalloc.Slab.ThreadCache.Stacks.{
  Stacks, put_stack, Holds, Pops, prepend-Holds, push_to_thread-Holds, push_to_thread_tailed-Holds,
  pop_from_thread-Pops,
}

-- block 0x3000 leads to block 0x4000
abbrev headers : Headers
headers p = record {
  next = if p == 0x3000 then 0x4000 else 0;
  class = 1;
  magic = 0x42;
  life_time = 0;
}

abbrev idle : ThreadLocalEngine
idle = record { tls = λ c. record { head = 0; usage = 0 }; headers = headers }

abbrev no_blocks : Stacks
no_blocks c = []

idle-Holds : Holds idle no_blocks
idle-Holds = record {
  chains = λ c. nothing;
  counted = λ c. refl;
  once = λ c. refl;
  apart = λ c d x differ h. refl;
}

abbrev one_block : ThreadLocalEngine
one_block = set_bin idle 1 (record { head = 0x2000; usage = 1 }) (set_next headers 0x2000 0)

abbrev one_stack : Stacks
one_stack = put_stack no_blocks 1 (0x2000 ∷ [])

one_block-Holds : Holds one_block one_stack
one_block-Holds =
    prepend-Holds idle no_blocks idle-Holds 1 0x2000 0x2000 (0x2000 ∷ []) (ends (λ e. omega arith))
      refl (λ c x h. refl) refl 1 refl

other_blocks : (p c : ℕ) → p ≢ 0x2000 → mem p (one_stack c) ≡ false
other_blocks p c h = elim (Bool-cases (c == 1)) [
  | inl t ↦ rw t (let u = ne→== p 0x2000 h in rw u refl)
  | inr f ↦ rw f refl
]

push_to_thread-Holds_example :
    Returns
      (push_to_thread one_block 1 0x5000)
      (λ r. Holds r (put_stack one_stack 1 (0x5000 ∷ one_stack 1)))
push_to_thread-Holds_example =
    push_to_thread-Holds one_block one_stack one_block-Holds 1 0x5000 (omega arith)
      (λ e. omega arith) (λ c. other_blocks 0x5000 c (λ e. omega arith)) (omega arith)

pop_from_thread-Pops_example :
    Returns (pop_from_thread one_block 1) (Pops one_block one_stack one_block-Holds 1)
pop_from_thread-Pops_example =
    pop_from_thread-Pops one_block one_stack one_block-Holds 1 (omega arith)

push_to_thread_tailed-Holds_example :
    Returns
      (push_to_thread_tailed one_block 1 0x3000 0x4000 2)
      (λ r. Holds r (put_stack one_stack 1 ((0x3000 ∷ 0x4000 ∷ []) ++ one_stack 1)))
push_to_thread_tailed-Holds_example =
    push_to_thread_tailed-Holds one_block one_stack one_block-Holds 1 0x3000 0x4000 2
      (0x3000 ∷ 0x4000 ∷ []) (omega arith) (goes_on (λ e. omega arith) (ends (λ e. omega arith)))
      refl (λ c x h. other_blocks x c (λ e. ground (arith, h, e))) refl (omega arith)
