-- ===== src/Va/Segment/Multi/Search.antt =====
-- `Segment::alloc_multi` of src/va/bitmap.rs: both ranges and the carry together.
use native.Mathlib.Nat.{mod-lt}
use oxidalloc.Prelude.{
  ℕ, suc, ◌+◌, ◌-◌, ◌*◌, ◌%◌, ◌^◌, ◌≤◌, ◌<◌, ◌≡◌, ◌≢◌, refl, ◌∙◌, arith, Bool, true, false, ltb,
  leb, ◌==◌, dec_lt, ℕ_discrete, Bool-cases, inl, inr, Option, none, some, ◌&&◌, ◌||◌, bit_and, not,
}
use oxidalloc.Prelude.Word.{and_mask}
use oxidalloc.Outcome.{Outcome, ok, ◌>>=◌, Returns}
use oxidalloc.Va.Segment.Defs.{Segment, max_bits, max_random_blocks}
use oxidalloc.Va.Segment.View.{used, IsValid, AllFree}
use oxidalloc.Va.Segment.Claim
use oxidalloc.Va.Segment.Claim.{Takes, Allocates, exhausted}
use oxidalloc.Va.Segment.Multi.{
  Scan, found, ended, claim_run, scan_range, extend_run, carry_run, search_range, alloc_multi,
}
use oxidalloc.Va.Segment.Multi.Run.{Scanned}
use oxidalloc.Va.Segment.Multi.Range.{Scans, finds, ends, scan_range-Scans, claim_run_free}
use oxidalloc.Va.Segment.Multi.Extend.{extend_run-Extends}

-- What a range gives: a run, or the segment as it was, with no run of the segment that begins in
-- the range.
pub data Searches (s : Segment) (count lo hi : ℕ) : Option ℕ × Segment → Type 0 where
  hit : {r : Option ℕ × Segment} (first : ℕ) → Takes s count first r → Searches s count lo hi r
  miss :
      ((b : ℕ) → lo ≤ b → b < hi → b + count ≤ max_bits s → ¬ AllFree s b (b + count))
      → Searches s count lo hi (none, s)

module _ (s : Segment) (valid : IsValid s) (count : ℕ) (pos : 0 < count) where
  Scanned-start : (lo hi : ℕ) → Scanned s count lo hi lo 0 0
  Scanned-start lo hi = record {
    behind = omega arith;
    short = pos;
    joined = λ h. absurd (h refl);
    bounded = λ h. absurd (h refl);
    free = λ i p q. absurd (omega arith);
    after = omega arith;
    none_before = λ b p q. absurd (omega arith);
  }

  -- the loop ended with `run` free blocks at the end of the range: no run begins in it and ends in
  -- the segment, but perhaps from `start` on
  only_at_end :
      (lo hi bit run start : ℕ)
      → hi ≤ bit
      → Scanned s count lo hi bit run start
      → (b : ℕ) → lo ≤ b
      → b < hi
      → AllFree s b (b + count)
      → (run ≢ 0) × (start ≤ b) × (start + run ≡ hi)
  only_at_end lo hi bit run start over now b p q all = elim (ℕ_discrete run 0) [
    | yes e ↦ absurd (now.none_before b p (ground arith) all)
    | no ne ↦ (
      ne,
      elim (dec_lt b start) [
        | yes early ↦ absurd (now.none_before b p (ground arith) all)
        | no late ↦ omega arith
      ],
      omega (arith, now.joined ne, now.bounded ne),
    )
  ]

  module _ (start_bit : ℕ) (below : start_bit ≤ max_bits s) where
    carry_short :
        (run start extend : ℕ)
        → extend_run (count - run) start_bit 0 s ≡ ok extend
        → leb count (run + extend) ≡ false
        → carry_run count start_bit run start s ≡ ok (none, s)
    unfolding carry_run
    carry_short run start extend went few = rw (went, ◌>>=◌) (rw few)

    carry_enough :
        (run start extend : ℕ)
        → extend_run (count - run) start_bit 0 s ≡ ok extend
        → leb count (run + extend) ≡ true
        → carry_run count start_bit run start s ≡ claim_run s start count
    unfolding carry_run
    carry_enough run start extend went enough = rw (went, ◌>>=◌) (rw enough)

    carry_run-Searches :
        (bit run start : ℕ)
        → start_bit ≤ bit
        → run ≢ 0
        → Scanned s count 0 start_bit bit run start
        → Returns (carry_run count start_bit run start s) (Searches s count 0 start_bit)
    carry_run-Searches bit run start over ne now =
        let (extend, went, after) = extend_run-Extends s valid (count - run) start_bit 0 in
        let joined : start + run ≡ start_bit = omega (arith, now.joined ne, now.bounded ne) in
        let room : start_bit + extend ≤ max_bits s = omega (arith, after.inside below) in
        elim (Bool-cases (leb count (run + extend))) [
          | inl enough ↦
              let le : count ≤ run + extend = ground arith in
              let free : AllFree s start (start + count) = λ i p q. elim (dec_lt i start_bit) [
                | yes old ↦ now.free i (ground arith) (omega arith)
                | no new ↦ after.free i (omega arith) (omega arith)
              ] in
              let (addr, s', claimed, taken) =
                claim_run_free s start count valid (omega arith) free in
              (
                (some addr, s'),
                carry_enough run start extend went enough ∙ claimed,
                hit start taken,
              )
          | inr few ↦
              let lt : run + extend < count = ground arith in
              (
                (none, s),
                carry_short run start extend went few,
                miss (λ b p q inside all.
                    let (_, from, _) = only_at_end 0 start_bit bit run start over now b p q all in
                    let next = start_bit + (extend - 0) in
                    let set : used s next ≡ true = after.stop (omega arith) (omega arith) in
                    let clear : used s next ≡ false = all next (omega arith) (omega arith) in cc),
              )
        ]

    module _ (lo hi : ℕ) where
      abbrev scan : Outcome Scan
      scan = scan_range count hi (suc (hi - lo)) lo 0 0 s

      abbrev carries : ℕ → Bool
      carries run = lo == 0 && hi == start_bit && not (run == 0)

      range_found :
          (addr : ℕ) (s' : Segment)
          → scan ≡ ok (found addr s')
          → search_range count start_bit lo hi s ≡ ok (some addr, s')
      unfolding search_range
      range_found addr s' run = rw (run, ◌>>=◌)

      range_plain :
          (run start : ℕ)
          → scan ≡ ok (ended run start s)
          → carries run ≡ false
          → search_range count start_bit lo hi s ≡ ok (none, s)
      unfolding search_range
      range_plain run start went no_carry = rw (went, ◌>>=◌) (rw no_carry)

      range_carry :
          (run start : ℕ)
          → scan ≡ ok (ended run start s)
          → carries run ≡ true
          → search_range count start_bit lo hi s ≡ carry_run count start_bit run start s
      unfolding search_range
      range_carry run start went carry = rw (went, ◌>>=◌) (rw carry)

    -- the first range, from the random bit to the end
    first_end :
        start_bit < max_bits s
        → (r : Scan) → scan start_bit (max_bits s) ≡ ok r
        → Scans s count start_bit (max_bits s) r
        → Returns
            (search_range count start_bit start_bit (max_bits s) s)
            (Searches s count start_bit (max_bits s))
    first_end less (found addr s') went (finds b taken) =
        ((some addr, s'), range_found start_bit (max_bits s) addr s' went, hit b taken)
    first_end less (ended run start s') went (ends bit over now) = (
      (none, s),
      range_plain start_bit (max_bits s) run start went (ground arith),
      miss (λ b p q inside all.
          let (_, from, e) = only_at_end start_bit (max_bits s) bit run start over now b p q all in
          omega (arith, now.short)),
    )

    -- the second range, from the start to the random bit
    second_end :
        (r : Scan)
        → scan 0 start_bit ≡ ok r
        → Scans s count 0 start_bit r
        → Returns (search_range count start_bit 0 start_bit s) (Searches s count 0 start_bit)
    second_end (found addr s') went (finds b taken) =
        ((some addr, s'), range_found 0 start_bit addr s' went, hit b taken)
    second_end (ended run start s') went (ends bit over now) = elim (ℕ_discrete run 0) [
      | yes e ↦ (
        (none, s),
        range_plain 0 start_bit run start went (ground arith),
        miss (λ b p q inside all. (only_at_end 0 start_bit bit run start over now b p q all).0 e),
      )
      | no ne ↦
          let (r, claimed, searches) = carry_run-Searches bit run start over ne now in
          (r, range_carry 0 start_bit run start went (ground arith) ∙ claimed, searches)
    ]

    pub search_first :
        start_bit < max_bits s
        → Returns
            (search_range count start_bit start_bit (max_bits s) s)
            (Searches s count start_bit (max_bits s))
    search_first less =
        let (r, went, scans) =
          scan_range-Scans s valid count start_bit (max_bits s) (omega arith)
            (suc (max_bits s - start_bit)) start_bit 0 0 (omega arith)
            (Scanned-start start_bit (max_bits s)) in
        first_end less r went scans

    pub search_second :
        Returns (search_range count start_bit 0 start_bit s) (Searches s count 0 start_bit)
    search_second =
        let (r, went, scans) =
          scan_range-Scans s valid count 0 start_bit below (suc (start_bit - 0)) 0 0 0 (omega arith)
            (Scanned-start 0 start_bit) in
        second_end r went scans

  hint_fits :
      (random : ℕ) → leb (2 ^ 64) (s.hint * 64 + bit_and random (max_random_blocks - 1)) ≡ false
  hint_fits random =
      let h = valid.hinted in
      let small : bit_and random (max_random_blocks - 1) ≡ random % 65536 = and_mask 16 random in
      ground arith

  module _ (random : ℕ) where
    abbrev start_bit : ℕ
    start_bit = (s.hint * 64 + bit_and random (max_random_blocks - 1)) % max_bits s

    too_many :
        (max_bits s == 0 || ltb (max_bits s) count) ≡ true
        → alloc_multi random count s ≡ ok (none, s)
    unfolding alloc_multi
    too_many e = rw e

    module _ (enough : (max_bits s == 0 || ltb (max_bits s) count) ≡ false) where
      multi_first :
          (addr : ℕ) (s' : Segment)
          → search_range count start_bit start_bit (max_bits s) s ≡ ok (some addr, s')
          → alloc_multi random count s ≡ ok (some addr, s')
      unfolding alloc_multi
      multi_first addr s' went = rw enough (rw (hint_fits random) (rw went))

      multi_second :
          search_range count start_bit start_bit (max_bits s) s ≡ ok (none, s)
          → alloc_multi random count s ≡ search_range count start_bit 0 start_bit s
      unfolding alloc_multi
      multi_second went = rw enough (rw (hint_fits random) (rw went (ground arith)))

      whole :
          ((b : ℕ)
            → start_bit ≤ b
            → b < max_bits s
            → b + count ≤ max_bits s
            → ¬ AllFree s b (b + count))
          → (r : Option ℕ × Segment) → Searches s count 0 start_bit r
          → Allocates s count r
      whole late r (hit b taken) = Claim.takes b taken
      whole late r (miss early) = exhausted (λ b inside all. elim (dec_lt b start_bit) [
        | yes e ↦ early b (omega arith) e inside all
        | no l ↦ late b (omega arith) (omega arith) inside all
      ])

      both :
          (r : Option ℕ × Segment)
          → search_range count start_bit start_bit (max_bits s) s ≡ ok r
          → Searches s count start_bit (max_bits s) r
          → Returns (search_range count start_bit 0 start_bit s) (Searches s count 0 start_bit)
          → Returns (alloc_multi random count s) (Allocates s count)
      both (none, s') went (hit b taken) second = cc taken.address
      both (some addr, s') went (hit b taken) second =
          ((some addr, s'), multi_first addr s' went, Claim.takes b taken)
      both r went (miss late) (r', second_went, early) =
          (r', multi_second went ∙ second_went, whole late r' early)

    -- For a segment in order, whose hint is below 2 ^ 57, any random number and any positive count,
    -- `alloc_multi` returns without panic: it takes a run of free blocks inside the segment, or no
    -- such run exists and the segment is unchanged.
    pub alloc_multi-Allocates : Returns (alloc_multi random count s) (Allocates s count)
    alloc_multi-Allocates = elim (Bool-cases (max_bits s == 0 || ltb (max_bits s) count)) [
      | inl many ↦ ((none, s), too_many many, exhausted (λ b inside free. absurd (ground arith)))
      | inr enough ↦
          let some_block : 0 < max_bits s = ground arith in
          let less : start_bit < max_bits s = mod-lt _ some_block in
          let (r, went, searches) = search_first start_bit (omega arith) less in
          both enough r went searches (search_second start_bit (omega arith))
    ]
