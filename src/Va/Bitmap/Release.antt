-- ===== src/Va/Bitmap/Release.antt =====
-- `free` and `realloc_inplace` of `VaBitmap`, src/va/bitmap.rs: the segment that they find, and the rest.
use oxidalloc.Prelude.{
  ℕ, ◌+◌, ◌-◌, ◌/◌, ◌≤◌, ◌<◌, ◌≡◌, ◌≢◌, refl, arith, true, false, ◌⊎◌, inl, inr, Option, none,
  ==_iff, ne→==, ℕ_discrete, ◌^◌,
}
use oxidalloc.Outcome.{ok, ◌>>=◌, Returns}
use oxidalloc.Va.Segment.Defs.{Segment, block_size, blocks, max_bits}
use oxidalloc.Va.Segment.Release.{Frees, free-Frees}
use oxidalloc.Va.Segment.Resize.{Resizes, shrinks, grows, stays, realloc_inplace-Resizes}
use oxidalloc.Va.Bitmap.{VaBitmap, contains, put_segment, find, free, realloc_inplace}
use oxidalloc.Va.Bitmap.View.{
  IsValid, Same, Becomes-Same, Finds, hit, miss, find-Finds, put-here, put-there,
  put_segment-IsValid,
}

-- Segment `k` alone may differ, and the list is in order.
pub record ChangesOnly (b : VaBitmap) (k : ℕ) (b' : VaBitmap) : Type 0 where
  pub count : b'.count ≡ b.count
  pub radix : b'.radix ≡ b.radix
  pub others : (j : ℕ) → j ≢ k → b'.segments j ≡ b.segments j
  pub valid : IsValid b'

pub put_segment-ChangesOnly :
    (b : VaBitmap) (k : ℕ) (s : Segment)
    → IsValid b
    → k < b.count
    → Same (b.segments k) s
    → ChangesOnly b k (put_segment b k s)
put_segment-ChangesOnly b k s valid inside same = record {
  count = refl;
  radix = refl;
  others = put-there b k s;
  valid = put_segment-IsValid b k s valid inside same b.latest_segment valid.latest;
}

abbrev Nowhere : VaBitmap → ℕ → Type 0
Nowhere b addr = (k : ℕ) → k < b.count → contains (b.segments k) addr ≡ false

contains_bounds :
    (s : Segment) (addr : ℕ) → contains s addr ≡ true → (s.va_start ≤ addr) × (addr < s.va_end)
contains_bounds s addr has = ground arith

-- what `free` of `size` bytes at `addr` does
pub data Releases (b : VaBitmap) (addr size : ℕ) (b' : VaBitmap) : Type 0 where
  ignored : (addr ≡ 0) ⊎ (size ≡ 0) → b' ≡ b → Releases b addr size b'
  unknown : Nowhere b addr → b' ≡ b → Releases b addr size b'
  released :
      (k : ℕ)
      → k < b.count
      → contains (b.segments k) addr ≡ true
      → Frees (b.segments k) addr size (b'.segments k)
      → ChangesOnly b k b'
      → Releases b addr size b'

-- what `realloc_inplace` of an allocation at `addr` does, of which `old_size` bytes are held
pub data Fits (b : VaBitmap) (addr old_size new_size : ℕ) (r : Option ℕ × VaBitmap) : Type 0 where
  unknown : Nowhere b addr → r ≡ (none, b) → Fits b addr old_size new_size r
  resized :
      (k : ℕ)
      → k < b.count
      → contains (b.segments k) addr ≡ true
      → Resizes
          (b.segments k)
          ((addr - (b.segments k).va_start) / block_size)
          (blocks old_size)
          (blocks new_size)
          (r.0, r.1.segments k)
      → ChangesOnly b k r.1
      → Fits b addr old_size new_size r

Resizes-Same :
    (s : Segment) (first have want : ℕ) (r : Option ℕ × Segment)
    → Resizes s first have want r
    → Same s r.1
Resizes-Same s first have want _ (shrinks less becomes) = Becomes-Same _ _ _ becomes
Resizes-Same s first have want _ (grows more free becomes) = Becomes-Same _ _ _ becomes
Resizes-Same s first have want _ (stays more why becomes) = Becomes-Same _ _ _ becomes

module _ (b : VaBitmap) (addr size : ℕ) where
  free_null : addr ≡ 0 → free b addr size ≡ ok b
  unfolding free
  free_null null = let a = (==_iff addr 0).1 null in rw a refl

  free_nothing : addr ≢ 0 → size ≡ 0 → free b addr size ≡ ok b
  unfolding free
  free_nothing some_addr nothing =
      let a = ne→== addr 0 some_addr in let c = (==_iff size 0).1 nothing in rw (a, c) refl

module _ (b : VaBitmap) (valid : IsValid b) (addr : ℕ) where
  found-Releases :
      (size : ℕ) (r : Option ℕ)
      → addr ≢ 0
      → size ≢ 0
      → size + block_size < 2 ^ 64
      → find b addr ≡ ok r
      → Finds b addr r
      → Returns (free b addr size) (Releases b addr size)
  unfolding free
  found-Releases size _ some_addr some_size fits run (miss nowhere) =
      let a = ne→== addr 0 some_addr in
      let c = ne→== size 0 some_size in (b, rw a (rw c (rw run)), unknown nowhere refl)
  found-Releases size _ some_addr some_size fits run (hit {k} inside has) =
      let a = ne→== addr 0 some_addr in
      let c = ne→== size 0 some_size in
      let (lo, hi) = contains_bounds (b.segments k) addr has in
      let (s, freed, frees) =
        free-Frees (b.segments k) (valid.segs k inside) addr size fits lo hi in
      (
        put_segment b k s,
        rw a (rw c (rw (run, ◌>>=◌) (rw freed))),
        released k inside has (rw (put-here b k s) frees)
            (put_segment-ChangesOnly b k s valid inside (Becomes-Same _ _ _ frees.becomes)),
      )

  -- On a list of segments in order `free` returns. It frees the blocks of the run in the segment
  -- that has the address, and in no other; where no segment has it, or the address is null or the
  -- size 0, it changes nothing. Condition: the size plus one block is below 2 ^ 64.
  pub free-Releases :
      (size : ℕ) → size + block_size < 2 ^ 64 → Returns (free b addr size) (Releases b addr size)
  free-Releases size fits = elim (ℕ_discrete addr 0) [
    | yes null ↦ (b, free_null b addr size null, ignored (inl null) refl)
    | no some_addr ↦ elim (ℕ_discrete size 0) [
      | yes nothing ↦ (b, free_nothing b addr size some_addr nothing, ignored (inr nothing) refl)
      | no some_size ↦
          let (r, run, finds) = find-Finds b valid addr in
          found-Releases size r some_addr some_size fits run finds
    ]
  ]

  module _ (old_size new_size : ℕ) (old_fits : old_size + block_size < 2 ^ 64)
      (new_fits : new_size + block_size < 2 ^ 64)
      (held : (k : ℕ)
        → k < b.count
        → contains (b.segments k) addr ≡ true
        → (addr - (b.segments k).va_start) / block_size + blocks old_size
          ≤ max_bits (b.segments k)) where
    found-Fits :
        (r : Option ℕ)
        → find b addr ≡ ok r
        → Finds b addr r
        → Returns (realloc_inplace b addr old_size new_size) (Fits b addr old_size new_size)
    unfolding realloc_inplace
    found-Fits _ run (miss nowhere) = ((none, b), rw run refl, unknown nowhere refl)
    found-Fits _ run (hit {k} inside has) =
        let s = b.segments k in
        let (r, resized_run, resizes) =
          realloc_inplace-Resizes s (valid.segs k inside) addr old_size new_size
            (contains_bounds s addr has).0 old_fits new_fits (held k inside has) in
        let same = Resizes-Same s _ _ _ r resizes in
        (
          (r.0, put_segment b k r.1),
          rw (run, ◌>>=◌) (rw resized_run),
          resized k inside has (rw (put-here b k r.1) resizes)
              (put_segment-ChangesOnly b k r.1 valid inside same),
        )

    -- On a list of segments in order, for a run that its segment has, `realloc_inplace` returns. It
    -- shrinks, grows or refuses in the segment that has the address and changes no other; where no
    -- segment has it, it refuses. Condition: each size plus one block is below 2 ^ 64.
    pub realloc_inplace-Fits :
        Returns (realloc_inplace b addr old_size new_size) (Fits b addr old_size new_size)
    realloc_inplace-Fits = let (r, run, finds) = find-Finds b valid addr in found-Fits r run finds
