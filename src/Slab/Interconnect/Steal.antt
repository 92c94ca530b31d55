-- ===== src/Slab/Interconnect/Steal.antt =====
-- `try_pop` of src/slab/interconnect.rs: the processor's own cache, then those of the others.
use oxidalloc.Prelude.{
  ℕ, zero, suc, ◌+◌, ◌-◌, ◌%◌, ◌<◌, ◌≡◌, sym, ap, ◌∙◌, subst, arith, [], Option, some, ℕ_discrete,
  dec_lt,
}
use native.Mathlib.Nat.{mod-lt, mod-eq_of_lt, add-mod_right}
use oxidalloc.Slab.ThreadCache.Stacks.{Stacks}
use oxidalloc.Slab.Interconnect.{InterConnectCache, slot, or_first, pop, or_else, steal, try_pop}
use oxidalloc.Slab.Interconnect.Stacks.{Caches}
use oxidalloc.Slab.Interconnect.Pop.{Pops, empty, popped, pop_at-Pops}

module _ (c : InterConnectCache) (stacks : Stacks) (now : Caches c stacks) (class batch_size : ℕ)
    (some_wanted : 0 < batch_size) where
  abbrev Empty : ℕ → Type 0
  Empty k = stacks (slot k class) ≡ []

  -- null where the class has no block in any cache, else blocks from one of the caches
  pub data TryPops : ℕ × InterConnectCache → Type 0 where
    nothing : ((k : ℕ) → k < c.ncpu → Empty k) → TryPops (0, c)
    found :
        {head : ℕ} {c' : InterConnectCache} (k : ℕ)
        → k < c.ncpu
        → Pops c stacks now (slot k class) batch_size (some head, c')
        → TryPops (head, c')

  module _ (cpu : ℕ) (inside : cpu < c.ncpu) where
    abbrev victim : ℕ → ℕ
    victim i = (cpu + i) % c.ncpu

    -- every cache is a victim
    victim-onto : (k : ℕ) → k < c.ncpu → (i : ℕ) × (i < c.ncpu) × (victim i ≡ k)
    victim-onto k h = elim (dec_lt k cpu) [
      | no from ↦
          let sum : cpu + (k - cpu) ≡ k = omega arith in
          (k - cpu, omega arith, ap (λ (t : ℕ). t % c.ncpu) sum ∙ mod-eq_of_lt h)
      | yes before ↦ (
        k + c.ncpu - cpu,
        omega arith,
        let sum : cpu + (k + c.ncpu - cpu) ≡ k + c.ncpu = omega arith in
            ap (λ (t : ℕ). t % c.ncpu) sum ∙ add-mod_right k c.ncpu ∙ mod-eq_of_lt h,
      )
    ]

    or_else-TryPops :
        (k : ℕ)
        → k < c.ncpu
        → (r : Option ℕ × InterConnectCache) → Pops c stacks now (slot k class) batch_size r
        → (rest : ℕ × InterConnectCache) → (Empty k → TryPops rest)
        → TryPops (or_else r rest)
    or_else-TryPops k h _ (empty none_there) rest more = more none_there
    or_else-TryPops k h _ (popped ys zs a b d e f g) rest more =
        found k h (popped ys zs a b d e f g)

    pops : (k : ℕ) → Pops c stacks now (slot k class) batch_size (pop class batch_size k c)
    pops k = pop_at-Pops c stacks now (slot k class) batch_size some_wanted

    steal-TryPops :
        (left i : ℕ)
        → i + left ≡ c.ncpu
        → ((j : ℕ) → j < i → Empty (victim j))
        → TryPops (steal left i cpu class batch_size c)
    unfolding steal
    steal-TryPops zero i all before =
        nothing
          (λ k h. let (j, less, e) = victim-onto k h in subst Empty e (before j (omega arith)))
    steal-TryPops (suc left) i all before =
        or_else-TryPops (victim i) (mod-lt _ (omega arith)) _ (pops (victim i)) _ (λ none_there.
          steal-TryPops left (i + 1) (omega arith) (λ j h. elim (ℕ_discrete j i) [
            | yes here ↦ rw here none_there
            | no other ↦ before j (omega arith)
          ]))

    own_victim : (j : ℕ) → j < 1 → victim j ≡ cpu
    own_victim j h =
        let first : cpu + j ≡ cpu = omega arith in
        ap (λ (t : ℕ). t % c.ncpu) first ∙ mod-eq_of_lt inside

  -- `try_pop` takes blocks of the class from the cache of its processor or of another, and gives null
  -- only where no cache has a block of the class.
  pub try_pop-TryPops :
      (cpu : Option ℕ) → or_first cpu < c.ncpu → TryPops (try_pop cpu class batch_size c)
  unfolding try_pop
  try_pop-TryPops cpu inside =
      let own = or_first cpu in
      or_else-TryPops own inside own inside _ (pops own inside own) _ (λ none_there.
        steal-TryPops own inside (c.ncpu - 1) 1 (omega arith)
          (λ j h. subst Empty (sym (own_victim own inside j h)) none_there))
