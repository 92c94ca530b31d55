-- ===== src/Slab/Interconnect/Batches.antt =====
-- The walk of `pop` in src/slab/interconnect.rs along a chain of blocks.
use oxidalloc.Prelude.{
  ℕ, zero, suc, ◌+◌, ◌≤◌, ◌≡◌, ◌≢◌, refl, ap, arith, true, ◌⊎◌, inl, inr, ◌==◌, ne→==, List, [],
  ◌∷◌, ◌++◌, length,
}
use oxidalloc.Slab.ThreadCache.{Headers}
use oxidalloc.Slab.ThreadCache.Chain.{Chain, nothing, block, Batch, ends, goes_on}
use oxidalloc.Slab.Interconnect.{walk_batch}

-- The first blocks `ys` of a chain, up to the last that is taken, and those behind.
pub record Splits (h : Headers) (head : ℕ) (xs : List ℕ) (most : ℕ) (tail count : ℕ) : Type 0 where
  pub ys : List ℕ
  pub zs : List ℕ
  pub parts : xs ≡ ys ++ zs
  pub batch : Batch h tail head ys
  pub counted : count ≡ length ys
  pub few : length ys ≤ most
  pub all : (length ys ≡ most) ⊎ (zs ≡ [])
  pub rest : Chain h (h tail).next zs

-- the split of a chain with one block more in front
longer :
    (h : Headers) (p : ℕ) (xs : List ℕ) (most tail n count : ℕ)
    → p ≢ 0
    → Splits h (h p).next xs most tail n
    → count ≡ n + 1
    → Splits h p (p ∷ xs) (suc most) tail count
longer h p xs most tail n count some_block s e = record {
  ys = p ∷ s.ys;
  zs = s.zs;
  parts = ap (λ (l : List ℕ). p ∷ l) s.parts;
  batch = goes_on some_block s.batch;
  counted = omega (arith, s.counted);
  few = omega (arith, s.few);
  all = elim s.all [ inl most_taken ↦ inl (omega arith) | inr none_left ↦ inr none_left ];
  rest = s.rest;
}

single :
    (h : Headers) (p : ℕ) (xs : List ℕ) (most : ℕ)
    → p ≢ 0
    → Chain h (h p).next xs
    → (most ≡ 0) ⊎ (xs ≡ [])
    → Splits h p (p ∷ xs) (suc most) p 1
single h p xs most some_block rest last = record {
  ys = p ∷ [];
  zs = xs;
  parts = refl;
  batch = ends some_block;
  counted = refl;
  few = omega arith;
  all = elim last [ inl none_more ↦ inl (omega arith) | inr none_left ↦ inr none_left ];
  rest = rest;
}

pub Chain-cases :
    (h : Headers) (p : ℕ) (xs : List ℕ)
    → Chain h p xs
    → ((p ≡ 0) × (xs ≡ [])) ⊎ ((ys : List ℕ) × (p ≢ 0) × (xs ≡ p ∷ ys) × Chain h (h p).next ys)
Chain-cases h _ _ nothing = inl (refl, refl)
Chain-cases h _ _ (block {xs = ys} some_block rest) = inr (ys, some_block, refl, rest)

module _ (h : Headers) where
  stops : (left p n : ℕ) → (h p).next ≡ 0 → walk_batch (suc left) h p n ≡ (p, n)
  unfolding walk_batch
  stops left p n e = let t : ((h p).next == 0) ≡ true = ground arith in rw t refl

  goes :
      (left p n : ℕ)
      → (h p).next ≢ 0
      → walk_batch (suc left) h p n ≡ walk_batch left h (h p).next (n + 1)
  unfolding walk_batch
  goes left p n some_next = let t = ne→== (h p).next 0 some_next in rw t refl

  -- The walk from a block takes blocks until it has enough or the chain ends; its count goes up by one
  -- for each block behind the first.
  pub walk_batch-Splits :
      (left : ℕ) (p : ℕ) (xs : List ℕ) (n : ℕ)
      → p ≢ 0
      → Chain h (h p).next xs
      → (taken : ℕ) × Splits h p (p ∷ xs) (suc left) (walk_batch left h p n).0 taken
        × ((walk_batch left h p n).1 + 1 ≡ n + taken)
  unfolding walk_batch
  walk_batch-Splits zero p xs n some_block rest =
      (1, single h p xs 0 some_block rest (inl refl), refl)
  walk_batch-Splits (suc left) p xs n some_block rest = elim (Chain-cases h (h p).next xs rest) [
    | inl (e, none_left) ↦
        rw (stops left p n e) (1, single h p xs (suc left) some_block rest (inr none_left), refl)
    | inr (ys, some_next, e, later) ↦
        let (taken, splits, count) = walk_batch-Splits left (h p).next ys (n + 1) some_next later in
        rw (goes left p n some_next, e)
          (
            suc taken,
            longer h p _ (suc left) _ taken (suc taken) some_block splits (omega arith),
            omega arith,
          )
  ]
