-- ===== src/Slab/Classes/Budget.antt =====
-- The tables of src/slab/mod.rs: the size of a block, and the limit of a thread's cache.
use oxidalloc.Prelude.{
  ℕ, zero, suc, ◌+◌, ◌*◌, ◌%◌, ◌≤◌, ◌<◌, ◌≡◌, refl, arith, Bool, true, ◌&&◌, ◌||◌, leb, ◌==◌, ◌⊎◌,
}
use oxidalloc.Prelude.Word.{complement}
use oxidalloc.Va.Align.{align_to_lem}
use oxidalloc.Slab.Classes.{
  num_size_classes, size_class, header_size, block_size_of, tls_max_blocks, class_budget,
}

-- check every class
unfoldable pub every : ℕ → (ℕ → Bool) → Bool
every zero test = true
every (suc n) test = test n && every n test

pub every_lem : (n : ℕ) (test : ℕ → Bool) (k : ℕ) → every n test ≡ true → k < n → test k ≡ true
unfolding every
every_lem zero test k h lt = absurd (omega arith)
every_lem (suc n) test k h lt = ground (arith, every_lem n test k)

-- the classes up to 2 MiB, so that no sum of theirs wraps
size_class-le : (class : ℕ) → class < num_size_classes → size_class class ≤ 2097152
unfolding every
size_class-le class h = ground (arith, every_lem 34 (λ c. leb (size_class c) 2097152) class refl)

-- A block of a class holds its payload and the header, is a multiple of 16 bytes, and wastes less
-- than 16.
pub block_size_of-fits :
    (class : ℕ)
    → class < num_size_classes
    → (block_size_of class % 16 ≡ 0)
      × (size_class class + header_size ≤ block_size_of class)
      × (block_size_of class < size_class class + header_size + 16)
unfolding block_size_of
block_size_of-fits class h =
    align_to_lem 4 (size_class class + header_size) (omega arith)
      (omega (arith, size_class-le class h))

-- a cache of `blocks` blocks of `bytes` bytes each
within_budget : (blocks bytes budget : ℕ) → Bool
within_budget blocks bytes budget = leb 1 blocks && (blocks == 1 || leb (blocks * bytes) budget)

within_budget_lem :
    (blocks bytes budget : ℕ)
    → within_budget blocks bytes budget ≡ true
    → (1 ≤ blocks) × ((blocks ≡ 1) ⊎ (blocks * bytes ≤ budget))
unfolding within_budget
within_budget_lem blocks bytes budget h = ground arith

budget_table :
    every 34 (λ c. within_budget (tls_max_blocks c) (block_size_of c) (class_budget (size_class c)))
    ≡ true
unfolding every within_budget tls_max_blocks complement
budget_table = refl

-- The limit of a thread's cache is at least one block, and more than one block keep to the budget
-- of the class in bytes.
pub tls_max_blocks-budget :
    (class : ℕ)
    → class < num_size_classes
    → (1 ≤ tls_max_blocks class)
      × ((tls_max_blocks class ≡ 1)
          ⊎ (tls_max_blocks class * block_size_of class ≤ class_budget (size_class class)))
tls_max_blocks-budget class h = within_budget_lem _ _ _ (every_lem 34 _ class budget_table h)
