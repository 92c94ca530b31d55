-- ===== src/Va/Bitmap/Undo.antt =====
-- `free` of src/va/bitmap.rs on the run that `alloc` has just taken.
use oxidalloc.Prelude.{
  ℕ, ◌+◌, ◌-◌, ◌/◌, ◌≤◌, ◌<◌, ◌≡◌, ap, ◌∙◌, subst, arith, Bool, true, false, ◌&&◌, ◌||◌, not, min,
  inl, inr, ltb, ◌==◌, ne→==, ℕ_discrete, Bool-cases, ◌^◌,
}
use oxidalloc.Outcome.{Returns}
use oxidalloc.Va.Words.Bits.{within}
use oxidalloc.Va.Segment.Defs.{Segment, block_size, blocks, max_bits}
use oxidalloc.Va.Segment.View.{used}
use oxidalloc.Va.Segment.Release.{Frees}
use oxidalloc.Va.Bitmap.{VaBitmap, contains, free}
use oxidalloc.Va.Bitmap.View.{taken}
use oxidalloc.Va.Bitmap.Release.{Releases, ignored, unknown, released, ChangesOnly, free-Releases}
use oxidalloc.Va.Bitmap.Blocks.{Holds, Allotted}

was_free : (c u v w t : Bool) → w ≡ true → u ≡ (v && not w) → t ≡ false → (c && u) ≡ t
was_free c u v w t inside back was = ground arith

still :
    (c d u v w t e : Bool)
    → w ≡ false
    → c ≡ d
    → u ≡ (v && not w)
    → (d && v) ≡ (t || (e && w))
    → (c && u) ≡ t
still c d u v w t e outside same back now = ground arith

module _ (b b' : VaBitmap) (size addr k first : ℕ) (some_block : 0 < blocks size)
    (fits : size + block_size < 2 ^ 64) (a : Allotted b (blocks size) addr b' k first) where
  abbrev at : Segment
  at = b'.segments k

  in_segment : contains at addr ≡ true
  in_segment =
      let e = a.address in
      let room = a.room in
      let lo : at.va_start ≤ addr = omega arith in
      let hi : addr < at.va_end = omega arith in ground arith

  -- the tree gives one segment for the address
  same_segment : (j : ℕ) → j < b'.count → contains (b'.segments j) addr ≡ true → j ≡ k
  same_segment j inside has =
      let mine = a.valid.mapped k addr a.inside in_segment in
      let its = a.valid.mapped j addr inside has in ground arith

  first_block : (addr - at.va_start) / block_size ≡ first
  first_block = let e = a.address in omega arith

  Frees-back :
      (s : Segment)
      → Frees at addr size s
      → (i : ℕ) → used s i ≡ (used at i && not (within first (first + blocks size) i))
  Frees-back s f i =
      let e = a.room in
      let upto : min (first + blocks size) (max_bits at) ≡ first + blocks size = ground arith in
      rw (first_block, upto) at (f.becomes.reads i)

  here_now :
      (c : VaBitmap)
      → Frees at addr size (c.segments k)
      → ChangesOnly b' k c
      → (i : ℕ) → taken c k i ≡ taken b k i
  here_now c f only i =
      let n = only.count in
      let back = Frees-back (c.segments k) f i in
      elim (Bool-cases (within first (first + blocks size) i)) [
        | inl inside ↦
            let was = a.free i (ground arith) (ground arith) in
            was_free (ltb k c.count) (used (c.segments k) i) (used at i) _ _ inside back was
        | inr outside ↦
            still (ltb k c.count) (ltb k b'.count) (used (c.segments k) i) (used at i) _ _ (k == k)
              outside (ap (ltb k) n) back (a.now k i)
      ]

  undone : (c : VaBitmap) → Frees at addr size (c.segments k) → ChangesOnly b' k c → Holds b c
  undone c f only = record {
    ranges = record {
      grew = omega (arith, a.ranges.grew, only.count);
      va_start = λ j h. elim (ℕ_discrete j k) [
        | yes here ↦ rw here (f.becomes.va_start ∙ a.ranges.va_start k (rw here at h))
        | no other ↦ ap (λ (s : Segment). s.va_start) (only.others j other) ∙ a.ranges.va_start j h
      ];
      va_end = λ j h. elim (ℕ_discrete j k) [
        | yes here ↦ rw here (f.becomes.va_end ∙ a.ranges.va_end k (rw here at h))
        | no other ↦ ap (λ (s : Segment). s.va_end) (only.others j other) ∙ a.ranges.va_end j h
      ];
    };
    now = λ j i. elim (ℕ_discrete j k) [
      | yes here ↦ rw here (here_now c f only i)
      | no other ↦
          let e = ne→== j k other in
          rw (only.count, only.others j other) (a.now j i ∙ rw e (ground arith))
    ];
    valid = only.valid;
  }

  -- A release of the run that was just taken gives the blocks back as they were.
  pub free-Holds : Returns (free b' addr size) (Holds b)
  free-Holds = let (c, run, r) = free-Releases b' a.valid addr size fits in (c, run, settle c r)
    where
      settle : (c : VaBitmap) → Releases b' addr size c → Holds b c
      settle c (ignored why same) = elim why [
        | inl nil ↦ let n = a.valid.not_null k a.inside in let e = a.address in absurd (omega arith)
        | inr nil ↦ absurd (omega arith)
      ]
      settle c (unknown nowhere same) = let h = nowhere k a.inside in let t = in_segment in cc
      settle c (released j inside has f only) =
          let e = same_segment j inside has in
          undone c (subst (λ t. Frees (b'.segments t) addr size (c.segments t)) e f)
            (subst (λ t. ChangesOnly b' t c) e only)
