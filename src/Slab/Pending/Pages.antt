-- ===== src/Slab/Pending/Pages.antt =====
-- What `drain_pending` and `bulk_fill` of src/slab/bulk_allocation.rs need of headers and of the blocks that
-- are cut from pages.
use oxidalloc.Prelude.{
  ℕ, zero, suc, ◌+◌, ◌^◌, ◌≤◌, ◌<◌, ◌≡◌, refl, sym, ap, subst, fun_ext, arith, true, ==_iff, ne→==,
  ℕ_discrete, List, ◌∷◌,
}
use oxidalloc.Slab.ThreadCache.{OxHeader, Headers}
use oxidalloc.Slab.ThreadCache.Chain.{mem, Chain, nothing, block}
use oxidalloc.Slab.ThreadCache.Stacks.{Stacks, put_stack, New}
use oxidalloc.Slab.InitBlocks.{MetaData, remaining_blocks, block_at}
use oxidalloc.Slab.InitBlocks.Carve.{cut}
use oxidalloc.Slab.Interconnect.{InterConnectCache}
use oxidalloc.Slab.Interconnect.Stacks.{Caches}

-- a chain whose headers keep their values
pub Chain-same :
    (h g : Headers) (p : ℕ) (xs : List ℕ)
    → ((x : ℕ) → mem x xs ≡ true → g x ≡ h x)
    → Chain h p xs
    → Chain g p xs
Chain-same h g p xs same nothing = nothing
Chain-same h g p xs same (block {xs = ys} some_block rest) =
    let here : mem p (p ∷ ys) ≡ true = let e = (==_iff p p).1 refl in rw e refl in
    block some_block (
      subst (λ (o : OxHeader). Chain g (o.next) ys) (sym (same p here))
        (Chain-same h g ((h p).next) ys (λ x inside. same x (ground (arith, inside))) rest))

-- caches whose blocks keep their headers
pub Caches-same :
    (c : InterConnectCache) (g : Headers) (stacks : Stacks)
    → ((i x : ℕ) → mem x (stacks i) ≡ true → g x ≡ c.headers x)
    → Caches c stacks
    → Caches (record c { headers = g }) stacks
Caches-same c g stacks same now = record {
  holds = record {
    chains = λ i. Chain-same c.headers g _ (stacks i) (same i) (now.holds.chains i);
    counted = now.holds.counted;
    once = now.holds.once;
    apart = now.holds.apart;
  };
  blocks = now.blocks;
  small = now.small;
}

pub put_stack-same : (stacks : Stacks) (at : ℕ) → put_stack stacks at (stacks at) ≡ stacks
put_stack-same stacks at = fun_ext (λ c. elim (ℕ_discrete c at) [
  | yes here ↦ let e = (==_iff c at).1 here in rw e (ap stacks (sym here))
  | no other ↦ let e = ne→== c at other in rw e refl
])

module _ (base block_size : ℕ) where
  pub cut-all :
      (P : ℕ → Type 0) (n lo : ℕ)
      → ((k : ℕ) → k < lo + n → P (block_at base block_size k))
      → (x : ℕ) → mem x (cut base block_size n lo) ≡ true
      → P x
  cut-all P zero lo all x h = cc
  cut-all P (suc n) lo all x h = elim (ℕ_discrete x (block_at base block_size lo)) [
    | yes here ↦ subst P (sym here) (all lo (omega arith))
    | no other ↦
        let e = ne→== x (block_at base block_size lo) other in
        cut-all P n (lo + 1) (λ k before. all k (omega arith)) x (rw e at h)
  ]

  pub cut-mem :
      (n lo k : ℕ)
      → lo ≤ k
      → k < lo + n
      → mem (block_at base block_size k) (cut base block_size n lo) ≡ true
  cut-mem zero lo k low high = absurd (omega arith)
  cut-mem (suc n) lo k low high = elim (ℕ_discrete k lo) [
    | yes here ↦ let e = (==_iff (block_at base block_size lo) _).1 refl in rw (here, e) refl
    | no other ↦ let rest = cut-mem n (lo + 1) k (omega arith) (omega arith) in ground (arith, rest)
  ]

-- pages that can be cut: inside the address space, and their blocks are new
pub record Uncut (m : MetaData) (block_size : ℕ) (stacks : Stacks) : Type 0 where
  pub not_null : 0 < m.next
  pub ordered : m.next ≤ m.end
  pub bounded : m.end < 2 ^ 64
  pub new : New stacks (cut (m.next) block_size (remaining_blocks m block_size) 0)

-- the blocks that are left in pages
abbrev pub rest_of : MetaData → (block_size : ℕ) → List ℕ
rest_of m block_size = cut (m.next) block_size (remaining_blocks m block_size) 0
