-- ===== src/Va/Bitmap/Walk.antt =====
-- The searches of `alloc` in src/va/bitmap.rs: the segment that served last, and the walk of the list.
use oxidalloc.Prelude.{
  ℕ, zero, suc, ◌≤◌, ◌<◌, ◌≡◌, refl, ap, ◌∙◌, fun_ext, arith, true, false, inl, inr, Option, none,
  some, Bool-cases, Option-cases, ℕ_discrete,
}
use oxidalloc.Outcome.{Outcome, ok}
use oxidalloc.Va.Segment.Defs.{Segment}
use oxidalloc.Va.Segment.Claim.{Allocates, takes, exhausted}
use oxidalloc.Va.Bitmap.{VaBitmap, put_segment, search, count_failure, try_at, try_latest, walk}
use oxidalloc.Va.Bitmap.View.{IsValid, link, put-here, put-there}
use oxidalloc.Va.Bitmap.Blocks.{
  Holds, Holds-refl, Holds-trans, Allotted, Holds-Allotted, Takes-Allotted, failure-Holds, NoRun,
  Tried, search-Allocates,
}

put_same : (b : VaBitmap) (k : ℕ) → put_segment b k (b.segments k) ≡ b
put_same b k =
    ap (λ f. record b { segments = f })
      (fun_ext (λ j. elim (ℕ_discrete j k) [
        | yes here ↦ rw here (put-here b k (b.segments k))
        | no other ↦ put-there b k (b.segments k) j other
      ]))

-- `b'` has the tree and the state of the reservation of `b`, and as many segments
pub record SameSystem (b b' : VaBitmap) : Type 0 where
  pub count : b'.count ≡ b.count
  pub reserve : b'.reserve ≡ b.reserve
  pub radix : b'.radix ≡ b.radix

pub SameSystem-refl : (b : VaBitmap) → SameSystem b b
SameSystem-refl b = record { count = refl; reserve = refl; radix = refl }

module _ (random : ℕ → ℕ) (needed : ℕ) (some_block : 0 < needed) where
  -- the segment that served last gives a run, or nothing changes
  pub data Tries (b : VaBitmap) : Outcome (Option ℕ × VaBitmap) → Type 0 where
    served :
        {addr : ℕ} {b' : VaBitmap} (k first : ℕ)
        → Allotted b needed addr b' k first
        → Tries b (ok (some addr, b'))
    passed : Tries b (ok (none, b))

  module _ (b : VaBitmap) (valid : IsValid b) where
    latest_run :
        {k : ℕ} {r : Option ℕ × Segment}
        → b.latest_segment ≡ some k
        → search (random k) needed (b.segments k) ≡ ok r
        → try_latest random needed b ≡ ok (r.0, put_segment b k r.1)
    unfolding try_latest
    latest_run e run = ap (λ t. try_at random needed t b) e ∙ rw run refl

    latest-Tries :
        (k : ℕ) (r : Option ℕ × Segment)
        → b.latest_segment ≡ some k
        → search (random k) needed (b.segments k) ≡ ok r
        → Allocates (b.segments k) needed r
        → Tries b (try_latest random needed b)
    latest-Tries k (none, s) e run (takes first t) = cc t.address
    latest-Tries k (some addr, s) e run (takes first t) = rw (latest_run e run) (
        served k first (
          Takes-Allotted b k valid (valid.latest k e) needed first addr s t b.latest_segment
            valid.latest))
    latest-Tries k _ e run (exhausted no_run) = rw (latest_run e run) (rw (put_same b k) passed)

    no_latest : b.latest_segment ≡ none → try_latest random needed b ≡ ok (none, b)
    unfolding try_latest
    no_latest e = ap (λ t. try_at random needed t b) e

    -- The segment that served last gives a run, or the search leaves everything as it was.
    pub try_latest-Tries : Tries b (try_latest random needed b)
    try_latest-Tries = elim (Option-cases b.latest_segment) [
      | inl e ↦ rw (no_latest e) passed
      | inr (k, e) ↦
          let (r, run, a) =
            search-Allocates (random k) needed some_block (b.segments k)
              (valid.segs k (valid.latest k e)) in
          latest-Tries k r e run a
    ]

  -- What the walk of the first `n` segments gives: a run, or none of them has one that is not marked
  -- full.
  pub data Walks (b : VaBitmap) (n : ℕ) : Outcome (Option ℕ × VaBitmap) → Type 0 where
    hit :
        {addr : ℕ} {b' : VaBitmap} (k first : ℕ)
        → Allotted b needed addr b' k first
        → Walks b n (ok (some addr, b'))
    missed :
        {b' : VaBitmap}
        → Holds b b'
        → SameSystem b b'
        → Tried b needed n
        → Walks b n (ok (none, b'))

  module _ (fuel n : ℕ) (b : VaBitmap) where
    full_step :
        (b.segments n).full ≡ true
        → walk random needed (suc fuel) (some n) b ≡ walk random needed fuel (b.segments n).next b
    unfolding walk
    full_step full = rw (full, walk) refl

    found_step :
        {addr : ℕ} {s : Segment}
        → (b.segments n).full ≡ false
        → search (random n) needed (b.segments n) ≡ ok (some addr, s)
        → walk random needed (suc fuel) (some n) b
          ≡ ok (some addr, record (put_segment b n s) { latest_segment = some n })
    unfolding walk
    found_step open_to run = rw (open_to, walk) (rw run refl)

    failed_step :
        {s : Segment}
        → (b.segments n).full ≡ false
        → search (random n) needed (b.segments n) ≡ ok (none, s)
        → walk random needed (suc fuel) (some n) b
          ≡ walk random needed fuel s.next (put_segment b n (count_failure s))
    unfolding walk
    failed_step open_to run = rw (open_to, walk) (rw run refl)

    -- one turn of the walk, from what the rest of it does
    module _ (inside : n < b.count) (valid : IsValid b) where
      full-Walks :
          (b.segments n).full ≡ true
          → Walks b n (walk random needed fuel (link n) b)
          → Walks b (suc n) (walk random needed (suc fuel) (some n) b)
      full-Walks full rest = rw (full_step full, valid.links n inside) (more _ rest)
        where
          more : (o : Outcome (Option ℕ × VaBitmap)) → Walks b n o → Walks b (suc n) o
          more _ (hit k first a) = hit k first a
          more _ (missed h same tried) = missed h same (λ k below open_to. elim (ℕ_discrete k n) [
            | yes here ↦ let t = rw here at open_to in cc
            | no other ↦ tried k (omega arith) open_to
          ])

      abbrev failed : VaBitmap
      failed = put_segment b n (count_failure (b.segments n))

      after_failure :
          NoRun (b.segments n) needed
          → (o : Outcome (Option ℕ × VaBitmap)) → Walks failed n o
          → Walks b (suc n) o
      after_failure no_run _ (hit {addr} {b'} k first a) =
          hit k first
            (Holds-Allotted b failed b' needed addr k first (failure-Holds b n valid inside) a)
      after_failure no_run _ (missed {b'} h same tried) =
          missed (Holds-trans b failed b' (failure-Holds b n valid inside) h)
            (record { count = same.count; reserve = same.reserve; radix = same.radix })
            (λ k below open_to. elim (ℕ_discrete k n) [
              | yes here ↦ rw here no_run
              | no other ↦
                  let e = put-there b n (count_failure (b.segments n)) k other in
                  rw e at (tried k (omega arith) (rw e open_to))
            ])

      open-Walks :
          (r : Option ℕ × Segment)
          → (b.segments n).full ≡ false
          → search (random n) needed (b.segments n) ≡ ok r
          → Allocates (b.segments n) needed r
          → Walks failed n (walk random needed fuel (link n) failed)
          → Walks b (suc n) (walk random needed (suc fuel) (some n) b)
      open-Walks (none, s) open_to run (takes first t) rest = cc t.address
      open-Walks (some addr, s) open_to run (takes first t) rest = rw (found_step open_to run) (
          hit n first
            (Takes-Allotted b n valid inside needed first addr s t (some n) (λ j e. ground arith)))
      open-Walks _ open_to run (exhausted no_run) rest =
          let step : walk random needed (suc fuel) (some n) b
              ≡ walk random needed fuel (link n) failed =
            failed_step open_to run
            ∙ ap (λ m. walk random needed fuel m failed) (valid.links n inside) in
          rw step (after_failure no_run _ rest)

  -- The walk of the segments below `n` ends. It takes a run in one of them and changes no other
  -- block, or changes no block, and no segment that is not marked full has a free run.
  pub walk-Walks :
      (fuel n : ℕ) (b : VaBitmap)
      → n ≤ fuel
      → n ≤ b.count
      → IsValid b
      → Walks b n (walk random needed fuel (link n) b)
  unfolding walk
  walk-Walks fuel zero b enough inside valid =
      missed (Holds-refl b valid) (SameSystem-refl b) (λ k below open_to. absurd (omega arith))
  walk-Walks zero (suc n) b enough inside valid = absurd (omega arith)
  walk-Walks (suc fuel) (suc n) b enough inside valid = elim (Bool-cases (b.segments n).full) [
    | inl full ↦
        full-Walks fuel n b inside valid full
          (walk-Walks fuel n b (omega arith) (omega arith) valid)
    | inr open_to ↦
        let (r, run, a) =
          search-Allocates (random n) needed some_block (b.segments n) (valid.segs n inside) in
        let b1 = failed fuel n b inside valid in
        open-Walks fuel n b inside valid r open_to run a
          (walk-Walks fuel n b1 (omega arith) (omega arith) (failure-Holds b n valid inside).valid)
  ]
