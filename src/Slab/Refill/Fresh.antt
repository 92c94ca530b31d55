-- ===== src/Slab/Refill/Fresh.antt =====
-- Runs of blocks that src/va/bitmap.rs allots hold none of the addresses that were in use before.
use oxidalloc.Prelude.{
  ℕ, ◌+◌, ◌-◌, ◌*◌, ◌/◌, ◌^◌, ◌≤◌, ◌<◌, ◌≡◌, refl, sym, ◌∙◌, subst, arith, true, false, ◌==◌,
  ==_iff, ne→==, ℕ_discrete, Bool-cases, inl, inr, List, ◌++◌,
}
use oxidalloc.Slab.ThreadCache.Chain.{mem}
use oxidalloc.Slab.ThreadCache.Stacks.{Stacks, put_stack, mem-append}
use oxidalloc.Va.Segment.Defs.{block_size, max_bits}
use oxidalloc.Va.Bitmap.{VaBitmap, contains}
use oxidalloc.Va.Bitmap.View.{taken}
use oxidalloc.Va.Words.Bits.{within}
use oxidalloc.Va.Bitmap.Blocks.{Allotted}

-- an address in a block of pages that is in use
pub record Placed (b : VaBitmap) (x : ℕ) : Type 0 where
  pub segment : ℕ
  pub index : ℕ
  pub listed : segment < b.count
  pub in_use : taken b segment index ≡ true
  pub in_range : index < max_bits (b.segments segment)
  pub low : (b.segments segment).va_start + index * block_size ≤ x
  pub high : x < (b.segments segment).va_start + index * block_size + block_size

-- every block of the lists lies in pages in use
abbrev pub InUse : VaBitmap → Stacks → Type 0
InUse b stacks = (c x : ℕ) → mem x (stacks c) ≡ true → Placed b x

pub prepend-InUse :
    (b : VaBitmap) (stacks : Stacks) (class : ℕ) (xs : List ℕ)
    → InUse b stacks
    → ((x : ℕ) → mem x xs ≡ true → Placed b x)
    → InUse b (put_stack stacks class (xs ++ stacks class))
prepend-InUse b stacks class xs old new c x = elim (ℕ_discrete c class) [
  | no other ↦ let e = ne→== c class other in rw e (old c x)
  | yes here ↦
      let e = (==_iff c class).1 here in
      rw e (λ h. elim (Bool-cases (mem x xs)) [
        | inl pushed ↦ new x pushed
        | inr older ↦ old class x (ground (arith, h, older, mem-append x xs (stacks class)))
      ])
]

module _ (b b' : VaBitmap) (needed addr k first : ℕ) (a : Allotted b needed addr b' k first) where
  -- the end of the run is an address
  pub below : addr + needed * block_size < 2 ^ 64
  below =
      let room = a.room in
      let e = a.address in
      let seg = a.valid.segs k a.inside in let w = seg.bounded in let o = seg.ordered in omega arith

  pub not_null : 0 < addr
  not_null = let e = a.address in let n = a.valid.not_null k a.inside in omega arith

  -- What was in use still is.
  pub Placed-kept : (x : ℕ) → Placed b x → Placed b' x
  Placed-kept x p =
      let s = a.ranges.va_start p.segment p.listed in
      let t = a.ranges.va_end p.segment p.listed in
      record {
        segment = p.segment;
        index = p.index;
        listed = omega (arith, p.listed, a.ranges.grew);
        in_use = let e = p.in_use in a.now p.segment p.index ∙ ground (arith, e);
        in_range = rw (s, t) p.in_range;
        low = rw s p.low;
        high = rw s p.high;
      }

  -- The addresses of the run are in use.
  pub run-Placed : (x : ℕ) → addr ≤ x → x < addr + needed * block_size → Placed b' x
  run-Placed x from to =
      let e = a.address in
      let room = a.room in
      let i = (x - (b'.segments k).va_start) / block_size in
      let lo : first ≤ i = omega arith in
      let hi : i < first + needed = omega arith in
      let here : (k == k) ≡ true = (==_iff k k).1 refl in
      let covered : within first (first + needed) i ≡ true = ground arith in
      record {
        segment = k;
        index = i;
        listed = a.inside;
        in_use = a.now k i ∙ ground (arith, here, covered);
        in_range = omega arith;
        low = omega arith;
        high = omega arith;
      }

  module _ (x : ℕ) (p : Placed b x) (from : addr ≤ x) (to : x < addr + needed * block_size) where
    in_run : contains (b'.segments k) x ≡ true
    in_run =
        let room = a.room in
        let e = a.address in
        let o = (a.valid.segs k a.inside).ordered in
        let lo : (b'.segments k).va_start ≤ x = omega arith in
        let hi : x < (b'.segments k).va_end = omega arith in ground arith

    listed' : p.segment < b'.count
    listed' = omega (arith, p.listed, a.ranges.grew)

    in_old : contains (b'.segments p.segment) x ≡ true
    in_old =
        let o = (a.valid.segs p.segment listed').ordered in
        let s = a.ranges.va_start p.segment p.listed in
        let t = a.ranges.va_end p.segment p.listed in
        let range = p.in_range in
        let low = p.low in
        let high = p.high in
        let lo : (b'.segments p.segment).va_start ≤ x = omega arith in
        let hi : x < (b'.segments p.segment).va_end = omega arith in ground arith

    same_segment : p.segment ≡ k
    same_segment =
        let one = a.valid.mapped p.segment x listed' in_old in
        let two = a.valid.mapped k x a.inside in_run in cc

    -- An address in use lies outside of a run that is allotted.
    pub outside_run : ⊥
    outside_run =
        let start : (b.segments k).va_start ≡ (b'.segments k).va_start =
          sym (a.ranges.va_start k (subst (λ (j : ℕ). j < b.count) same_segment p.listed)) in
        let low : (b.segments k).va_start + p.index * block_size ≤ x =
          subst (λ (j : ℕ). (b.segments j).va_start + p.index * block_size ≤ x) same_segment
            p.low in
        let high : x < (b.segments k).va_start + p.index * block_size + block_size =
          subst (λ (j : ℕ). x < (b.segments j).va_start + p.index * block_size + block_size)
            same_segment p.high in
        let e = a.address in
        let free = a.free p.index (omega arith) (omega arith) in
        let busy : taken b k p.index ≡ true =
          subst (λ (j : ℕ). taken b j p.index ≡ true) same_segment p.in_use in
        let clash : true ≡ false = sym busy ∙ free in cc
