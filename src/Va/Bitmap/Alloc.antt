-- ===== src/Va/Bitmap/Alloc.antt =====
-- `alloc` of `VaBitmap`, src/va/bitmap.rs: the run that it takes, or why there is none.
use oxidalloc.Prelude.{
  ℕ, zero, suc, ◌+◌, ◌<◌, ◌≤◌, ◌≡◌, ◌≢◌, ◌^◌, refl, sym, ap, ◌∙◌, arith, Bool, false, ◌⊎◌, inl, inr,
  Option, none, some, ◌==◌, ne→==, ℕ_discrete, dec_lt,
}
use oxidalloc.Outcome.{Outcome, ok, panic, ◌>>=◌}
use oxidalloc.Va.Segment.Defs.{Segment, block_size, blocks, max_bits, overflows}
use oxidalloc.Va.Segment.Claim.{Allocates, takes, exhausted}
use oxidalloc.Va.Bitmap.{
  VaBitmap, grow, search, walk, first_from, first_segment, grow_retry, in_new, alloc_grown,
  behind_walk, behind_latest, alloc,
}
use oxidalloc.Va.Bitmap.View.{IsValid, link}
use oxidalloc.Va.Bitmap.Blocks.{
  Holds, Holds-refl, Holds-trans, Allotted, Holds-Allotted, Takes-Allotted, put-Holds, NoRun, Tried,
  search-Allocates,
}
use oxidalloc.Va.Bitmap.Walk.{
  SameSystem, Tries, served, passed, try_latest-Tries, Walks, hit, missed, walk-Walks,
}
use oxidalloc.Va.Bitmap.Extend.{Extends, Starved, Unfit, Grows, grown, failed, stopped}
use oxidalloc.Va.Bitmap.Grow.{grow-Grows}
use oxidalloc.Va.Bitmap.Retry.{
  Extends-Holds, Keeps-Holds, Failed, Stopped, Retries, made, gave_up, halted, grow_retry-Retries,
}

module _ (mmap : (call size : ℕ) → Bool) (mmap_at : (call target size : ℕ) → Option ℕ)
    (getrandom : (call : ℕ) → Option ℕ) where
  -- The run looks at the segments of `c`: those of `b`, or the first one, which `grow` made.
  pub data Begins (b : VaBitmap) : VaBitmap → Type 0 where
    as_it_is : Begins b b
    with_first :
        {k : ℕ} {c : VaBitmap}
        → b.count ≡ 0
        → grow mmap mmap_at getrandom b ≡ ok (some k, c)
        → Begins b c

  -- The growth at the end of a run from `b` begins in the state `from`.
  pub record AtEnd (b from : VaBitmap) : Type 0 where
    pub list : VaBitmap
    pub begins : Begins b list
    pub system : SameSystem list from

  -- The growth at the end of a run from `from` made a segment, which has fewer blocks than `needed`.
  pub record TooSmall (needed : ℕ) (from : VaBitmap) : Type 0 where
    pub with_new : VaBitmap
    pub made_it : grow_retry mmap mmap_at getrandom 10 from ≡ ok (some from.count, with_new)
    pub short : max_bits (with_new.segments from.count) < needed

  module _ (random : ℕ → ℕ) (needed : ℕ) (some_block : 0 < needed) where
    abbrev Unmet : VaBitmap → Type 0
    Unmet from = TooSmall needed from ⊎ Failed mmap mmap_at getrandom from

    -- what the end of `alloc` gives, behind the walk
    data Ends (b : VaBitmap) : Outcome (Option ℕ × VaBitmap) → Type 0 where
      new_run :
          {addr : ℕ} {b' : VaBitmap} (k first : ℕ)
          → Allotted b needed addr b' k first
          → Ends b (ok (some addr, b'))
      no_run : {b' : VaBitmap} → Holds b b' → Unmet b → Ends b (ok (none, b'))
      stops : Stopped mmap mmap_at getrandom b → Ends b panic

    at_end : (b c : VaBitmap) → Extends b c → b.count < c.count
    at_end b c e = omega (arith, e.count)

    too_short :
        (b c : VaBitmap)
        → Extends b c
        → NoRun (c.segments b.count) needed
        → max_bits (c.segments b.count) < needed
    too_short b c e none_free = elim (dec_lt (max_bits (c.segments b.count)) needed) [
      | yes h ↦ h
      | no h ↦
          let enough : 0 + needed ≤ max_bits (c.segments b.count) = omega arith in
          absurd (none_free 0 enough (λ i lo hi. e.free i))
    ]

    extended-Ends :
        (b c : VaBitmap)
        → Extends b c
        → grow_retry mmap mmap_at getrandom 10 b ≡ ok (some b.count, c)
        → (r : Option ℕ × Segment) → search (random b.count) needed (c.segments b.count) ≡ ok r
        → Allocates (c.segments b.count) needed r
        → Ends b (in_new mmap mmap_at getrandom random needed (some b.count, c))
    extended-Ends b c e grew (none, s) run (takes first t) = cc t.address
    extended-Ends b c e grew (some addr, s) run (takes first t) = rw run (
        new_run b.count first (
          Holds-Allotted b c _ needed addr b.count first (Extends-Holds b c e) (
            Takes-Allotted c b.count e.valid (at_end b c e) needed first addr s t (some b.count)
              (λ j h. let inside = at_end b c e in ground arith))))
    extended-Ends b c e grew _ run (exhausted none_free) = rw run (
        no_run
          (Holds-trans b c _ (Extends-Holds b c e) (
            put-Holds c b.count e.valid (at_end b c e) (c.segments b.count) (some b.count)
              (record {
                next = refl;
                va_start = refl;
                va_end = refl;
                valid = e.valid.segs b.count (at_end b c e);
              })
              (λ i. refl) (λ j h. let inside = at_end b c e in ground arith)))
          (inl (record { with_new = c; made_it = grew; short = too_short b c e none_free })))

    Retries-Ends :
        (b : VaBitmap)
        → IsValid b
        → (o : Outcome (Option ℕ × VaBitmap)) → grow_retry mmap mmap_at getrandom 10 b ≡ o
        → Retries mmap mmap_at getrandom b o
        → Ends b (o >>= in_new mmap mmap_at getrandom random needed)
    Retries-Ends b valid _ grew (made {b' = c} e) =
        let inside : b.count < c.count = omega (arith, e.count) in
        let (r, run, a) =
          search-Allocates (random b.count) needed some_block (c.segments b.count)
            (e.valid.segs b.count inside) in
        extended-Ends b c e grew r run a
    Retries-Ends b valid _ grew (gave_up {b' = c} k why) = no_run (Keeps-Holds b c k) (inr why)
    Retries-Ends b valid _ grew (halted why) = stops why

    alloc_grown-Ends :
        (b : VaBitmap) → IsValid b → Ends b (alloc_grown mmap mmap_at getrandom random needed b)
    unfolding alloc_grown
    alloc_grown-Ends b valid =
        Retries-Ends b valid _ refl (grow_retry-Retries mmap mmap_at getrandom b 9 valid)

    -- What `alloc` of `needed` blocks does: it takes a run of free blocks, or it takes none, and then no
    -- segment that is not marked full had such a run, and the new segment that `grow` made is too small
    -- or none was to be had, or it aborts, where a run of `grow` at the end stops or the first segment is not to be had.
    pub data Allots (b : VaBitmap) : Outcome (Option ℕ × VaBitmap) → Type 0 where
      allotted :
          {addr : ℕ} {b' : VaBitmap} (k first : ℕ)
          → Allotted b needed addr b' k first
          → Allots b (ok (some addr, b'))
      refused :
          {b' from : VaBitmap}
          → Holds b b'
          → Tried b needed b.count
          → AtEnd b from
          → Unmet from
          → Allots b (ok (none, b'))
      aborted :
          {from : VaBitmap}
          → Tried b needed b.count
          → AtEnd b from
          → Stopped mmap mmap_at getrandom from
          → Allots b panic
      no_first :
          b.count ≡ 0
          → Unfit mmap mmap_at getrandom b ⊎ Starved mmap mmap_at getrandom b
          → Allots b panic

    -- behind the walk
    Ends-Allots :
        (b c : VaBitmap)
        → Holds b c
        → Tried b needed b.count
        → AtEnd b c
        → (o : Outcome (Option ℕ × VaBitmap)) → Ends c o
        → Allots b o
    Ends-Allots b c h tried at _ (new_run {addr} {b' = d} k first a) =
        allotted k first (Holds-Allotted b c d needed addr k first h a)
    Ends-Allots b c h tried at _ (no_run {b' = d} held why) =
        refused (Holds-trans b c d h held) tried at why
    Ends-Allots b c h tried at _ (stops why) = aborted tried at why

    -- the walk of the list of `c`, which has the blocks of `b`
    Walks-Allots :
        (b c : VaBitmap)
        → Holds b c
        → Begins b c
        → (Tried c needed c.count → Tried b needed b.count)
        → (o : Outcome (Option ℕ × VaBitmap)) → Walks random needed some_block c c.count o
        → Allots b (o >>= behind_walk mmap mmap_at getrandom random needed)
    Walks-Allots b c h begins back _ (hit {addr} {b' = d} k first a) =
        allotted k first (Holds-Allotted b c d needed addr k first h a)
    Walks-Allots b c h begins back _ (missed {b' = d} held same tried) =
        Ends-Allots b d (Holds-trans b c d h held) (back tried)
          (record { list = c; begins = begins; system = same }) _ (alloc_grown-Ends d held.valid)

    abbrev list_of : Option ℕ × VaBitmap → Outcome (Option ℕ × VaBitmap)
    list_of (curr, c) =
        walk random needed c.count curr c >>= behind_walk mmap mmap_at getrandom random needed

    list-Allots :
        (b c : VaBitmap)
        → Holds b c
        → Begins b c
        → (Tried c needed c.count → Tried b needed b.count)
        → Allots b (list_of (link c.count, c))
    list-Allots b c h begins back =
        Walks-Allots b c h begins back _ (
          walk-Walks random needed some_block c.count c.count c (omega arith) (omega arith) h.valid)

    link-some : (n : ℕ) → n ≢ 0 → (m : ℕ) × (link n ≡ some m)
    link-some zero nil = absurd (nil refl)
    link-some (suc m) nil = (m, refl)

    has_head :
        (b : VaBitmap)
        → IsValid b
        → b.count ≢ 0
        → first_segment mmap mmap_at getrandom b ≡ ok (link b.count, b)
    unfolding first_segment
    has_head b valid some_segment =
        let (m, e) = link-some b.count some_segment in
        ap (λ t. first_from mmap mmap_at getrandom t b) (valid.chain ∙ e)
        ∙ ap (λ (t : Option ℕ). ok (t, b)) (sym e)

    no_head :
        (b : VaBitmap)
        → IsValid b
        → b.count ≡ 0
        → first_segment mmap mmap_at getrandom b ≡ first_from mmap mmap_at getrandom none b
    unfolding first_segment
    no_head b valid nil =
        ap (λ t. first_from mmap mmap_at getrandom t b) (valid.chain ∙ ap link nil)

    -- the first segment of an empty list
    first-Allots :
        (b : VaBitmap)
        → b.count ≡ 0
        → (o : Outcome (Option ℕ × VaBitmap)) → grow mmap mmap_at getrandom b ≡ o
        → Grows mmap mmap_at getrandom b o
        → Allots b (
            o
            >>= (λ (r : Option ℕ × VaBitmap). elim r.0 [ some k ↦ ok (some k, r.1) | none ↦ panic ])
            >>= list_of)
    first-Allots b nil _ run (grown {b' = c} e) =
        let head : link c.count ≡ some b.count = ap link e.count in
        rw head at (
          list-Allots b c (Extends-Holds b c e) (with_first nil run)
            (λ tried k below. absurd (omega (arith, nil))))
    first-Allots b nil _ run (failed k unfit) = no_first nil (inl unfit)
    first-Allots b nil _ run (stopped why) = no_first nil (inr why)

    behind-Allots :
        (b : VaBitmap)
        → IsValid b
        → (o : Outcome (Option ℕ × VaBitmap)) → Tries random needed some_block b o
        → Allots b (o >>= behind_latest mmap mmap_at getrandom random needed)
    behind-Allots b valid _ (served k first a) = allotted k first a
    behind-Allots b valid _ passed = elim (ℕ_discrete b.count 0) [
      | yes nil ↦
          rw (no_head b valid nil)
            (first-Allots b nil _ refl (grow-Grows mmap mmap_at getrandom b valid))
      | no some_segment ↦
          rw (has_head b valid some_segment)
            (list-Allots b b (Holds-refl b valid) as_it_is (λ tried. tried))
    ]

  -- On a list of segments in order, for a size of at least one block, `alloc` ends. It takes a run
  -- of as many free blocks as the size needs in one segment, returns its address and changes no
  -- other block of any segment. Or it returns none and changes no block; then no segment that is
  -- not marked full had such a run, and the new segment that the run made is too small or the last
  -- run of `grow` gave none, for a reason that its requests show. Or it aborts, where a run of `grow` at its end
  -- aborts, after no segment that is not marked full had such a run, or where the list is empty and
  -- its first segment is not to be had. The list stays in order. Condition: the size plus one block
  -- is below 2 ^ 64.
  pub alloc-Allots :
      (random : ℕ → ℕ) (size : ℕ) (b : VaBitmap) (some_block : 0 < blocks size)
      → size + block_size < 2 ^ 64
      → IsValid b
      → Allots random (blocks size) some_block b (alloc mmap mmap_at getrandom random size b)
  unfolding alloc
  alloc-Allots random size b some_block fits valid =
      let some_size : (size == 0) ≡ false = ne→== size 0 (λ e. omega arith) in
      let sum : overflows size ≡ false = ground arith in
      rw (some_size, sum)
        (behind-Allots random (blocks size) some_block b valid _
          (try_latest-Tries random (blocks size) some_block b valid))
