-- ===== src/Va/Segment/Single/Search.antt =====
-- `Segment::alloc_single` of src/va/bitmap.rs: the search of all chunks, from the hint on and round.
use oxidalloc.Prelude.{
  ℕ, zero, suc, ◌+◌, ◌-◌, ◌*◌, ◌/◌, ◌%◌, ◌^◌, ◌≤◌, ◌<◌, ◌≡◌, ◌≢◌, refl, ◌∙◌, ◌≤◌, arith, true,
  false, ◌||◌, Bool-cases, inl, inr, ltb, leb, ◌==◌, dec_lt, Option, none, some, ==_iff, bit_and,
  subst, ap, ℕ_discrete,
}
use native.Mathlib.Nat.{mod-lt}
use oxidalloc.Prelude.Word.{and_mask, u64_max, bit, bit-u64_max}
use oxidalloc.Outcome.{ok, ◌>>=◌, Returns}
use oxidalloc.Va.Words.{load}
use oxidalloc.Va.Segment.Defs.{Segment, max_random_blocks, max_bits}
use oxidalloc.Va.Segment.View.{used, IsValid}
use oxidalloc.Va.Segment.Claim.{Takes, Allocates, exhausted}
use oxidalloc.Va.Segment.Claim
use oxidalloc.Va.Segment.Single.{scan_chunk, valid_chunk, scan_chunks, alloc_single}
use oxidalloc.Va.Segment.Single.Word.{
  Searches, finds, misses, bit-valid_chunk, valid_chunk-lt, scan_chunk-Searches,
}

module _ (s : Segment) (valid : IsValid s) where
  -- an unused block later in the range, where the first part has none
  extend :
      (lo mid hi : ℕ) (r : Option ℕ × Segment)
      → ((j : ℕ) → lo ≤ j → j < mid → j < max_bits s → used s j ≡ true)
      → Searches s mid hi r
      → Searches s lo hi r
  extend lo mid hi r first (finds b t) = finds b t
  extend lo mid hi r first (misses rest) = misses (λ j p q inside. elim (dec_lt j mid) [
    | yes early ↦ first j p early inside
    | no late ↦ rest j (omega arith) q inside
  ])

  full_word :
      (i : ℕ)
      → s.map i ≡ u64_max
      → (j : ℕ) → i * 64 ≤ j
      → j < i * 64 + 64
      → j < max_bits s
      → used s j ≡ true
  full_word i e j lo hi inside =
      let word : j / 64 ≡ i = omega arith in rw word (rw (e, bit-u64_max) (ground arith))

  bit_in_word :
      (i k : ℕ)
      → k < 64
      → i < (max_bits s + 63) / 64
      → bit (valid_chunk (max_bits s) i (s.map i)) k
        ≡ (used s (i * 64 + k) || leb (max_bits s) (i * 64 + k))
  bit_in_word i k h inside =
      let word : (i * 64 + k) / 64 ≡ i = omega arith in
      let place : (i * 64 + k) % 64 ≡ k = omega arith in
      rw (bit-valid_chunk (max_bits s) i (s.map i) k inside h) (rw (word, place))

  module _ (left i : ℕ) (inside : i < s.map_len) where
    loaded : ltb i s.map_len ≡ true
    loaded = ground arith

    scan_chunks_full : s.map i ≡ u64_max → scan_chunks (suc left) i s ≡ scan_chunks left (i + 1) s
    unfolding scan_chunks load
    scan_chunks_full e =
        let full : (s.map i == u64_max) ≡ true = (==_iff _ _).1 e in rw (loaded, ◌>>=◌) (rw full)

    scan_chunks_miss :
        (s.map i == u64_max) ≡ false
        → scan_chunk 65 i (valid_chunk (max_bits s) i (s.map i)) s ≡ ok (none, s)
        → scan_chunks (suc left) i s ≡ scan_chunks left (i + 1) s
    unfolding scan_chunks load
    scan_chunks_miss clear run = rw (loaded, ◌>>=◌) (rw (clear, ◌>>=◌) (rw run))

    scan_chunks_find :
        (addr : ℕ) (s' : Segment)
        → (s.map i == u64_max) ≡ false
        → scan_chunk 65 i (valid_chunk (max_bits s) i (s.map i)) s ≡ ok (some addr, s')
        → scan_chunks (suc left) i s ≡ ok (some addr, s')
    unfolding scan_chunks load
    scan_chunks_find addr s' clear run = rw (loaded, ◌>>=◌) (rw (clear, ◌>>=◌) (rw run))

  -- what `scan_chunk` found decides whether the loop goes on
  after_chunk :
      (left i hi : ℕ) (r : Option ℕ × Segment)
      → i < s.map_len
      → (s.map i == u64_max) ≡ false
      → scan_chunk 65 i (valid_chunk (max_bits s) i (s.map i)) s ≡ ok r
      → Searches s (i * 64) (i * 64 + 64) r
      → Returns (scan_chunks left (i + 1) s) (Searches s (i * 64 + 64) hi)
      → Returns (scan_chunks (suc left) i s) (Searches s (i * 64) hi)
  after_chunk left i hi (none, s') inside clear run (finds b t) rest = cc t.address
  after_chunk left i hi (some addr, s') inside clear run (finds b t) rest =
      ((some addr, s'), scan_chunks_find left i inside addr s' clear run, finds b t)
  after_chunk left i hi r inside clear run (misses here) (r', rest_run, rest) =
      (r', scan_chunks_miss left i inside clear run ∙ rest_run, extend _ _ _ r' here rest)

  scan_chunks-Searches :
      (left i hi : ℕ)
      → i + left ≤ (max_bits s + 63) / 64
      → hi ≡ (i + left) * 64
      → Returns (scan_chunks left i s) (Searches s (i * 64) hi)
  scan_chunks-Searches zero i hi fits e =
      ((none, s), unfold scan_chunks in refl, misses (λ j lo q inside. absurd (omega arith)))
  scan_chunks-Searches (suc left) i hi fits e =
      let next : (i + 1) * 64 ≡ i * 64 + 64 = omega arith in
      let rest =
        subst (λ t. Returns (scan_chunks left (i + 1) s) (Searches s t hi)) next
          (scan_chunks-Searches left (i + 1) hi (omega arith) (omega arith)) in
      let inside : i < s.map_len = omega (arith, valid.covered) in
      elim (Bool-cases (s.map i == u64_max)) [
        | inl full ↦
            let e : s.map i ≡ u64_max = (==_iff _ _).0 full in
            let (r, run, found) = rest in
            (r, scan_chunks_full left i inside e ∙ run, extend _ _ _ r (full_word i e) found)
        | inr clear ↦
            let word = valid_chunk (max_bits s) i (s.map i) in
            let (r, run, found) =
              scan_chunk-Searches s valid i word
                (valid_chunk-lt (max_bits s) i (s.map i) (valid.map_words i))
                (λ k h. bit_in_word i k h (omega arith)) 64 in
            after_chunk left i hi r inside clear run found rest
      ]

  abbrev chunks : ℕ
  chunks = (max_bits s + 63) / 64

  abbrev start_chunk : ℕ → ℕ
  start_chunk random = (s.hint * 64 + bit_and random (max_random_blocks - 1)) / 64 % chunks

  start_chunk-lt : (random : ℕ) → max_bits s ≢ 0 → start_chunk random < chunks
  start_chunk-lt random some_block = mod-lt _ (omega arith)

  no_block : max_bits s ≡ 0 → (random : ℕ) → alloc_single random s ≡ ok (none, s)
  unfolding alloc_single
  no_block e random = ground arith

  hint_fits :
      (random : ℕ) → leb (2 ^ 64) (s.hint * 64 + bit_and random (max_random_blocks - 1)) ≡ false
  hint_fits random =
      let h = valid.hinted in
      let small : bit_and random (max_random_blocks - 1) ≡ random % 65536 = and_mask 16 random in
      ground arith

  alloc_single_first :
      (random addr : ℕ) (s' : Segment)
      → max_bits s ≢ 0
      → scan_chunks (chunks - start_chunk random) (start_chunk random) s ≡ ok (some addr, s')
      → alloc_single random s ≡ ok (some addr, s')
  unfolding alloc_single
  alloc_single_first random addr s' some_block run =
      let e : (max_bits s == 0) ≡ false = ground arith in rw e (rw (hint_fits random) (rw run))

  alloc_single_second :
      (random : ℕ)
      → max_bits s ≢ 0
      → scan_chunks (chunks - start_chunk random) (start_chunk random) s ≡ ok (none, s)
      → alloc_single random s ≡ scan_chunks (start_chunk random) 0 s
  unfolding alloc_single
  alloc_single_second random some_block run =
      let e : (max_bits s == 0) ≡ false = ground arith in
      rw e (rw (hint_fits random) (rw run (ground arith)))

  -- the first part of the chunks is all in use
  round :
      (random : ℕ)
      → max_bits s ≢ 0
      → ((j : ℕ) → start_chunk random * 64 ≤ j → j < chunks * 64 → j < max_bits s → used s j ≡ true)
      → (r : Option ℕ × Segment) → Searches s (0 * 64) (start_chunk random * 64) r
      → Allocates s 1 r
  round random some_block late r (finds b t) = Claim.takes b t
  round random some_block late r (misses early) = exhausted (λ b inside free.
      elim (dec_lt b (start_chunk random * 64)) [
        | yes e ↦
            let u = early b (omega arith) e (omega arith) in
            let f = free b (omega arith) (omega arith) in cc
        | no l ↦
            let u = late b (omega arith) (omega arith) (omega arith) in
            let f = free b (omega arith) (omega arith) in cc
      ])

  both_ranges :
      (random : ℕ)
      → max_bits s ≢ 0
      → (r : Option ℕ × Segment)
      → scan_chunks (chunks - start_chunk random) (start_chunk random) s ≡ ok r
      → Searches s (start_chunk random * 64) (chunks * 64) r
      → Returns
          (scan_chunks (start_chunk random) 0 s)
          (Searches s (0 * 64) (start_chunk random * 64))
      → Returns (alloc_single random s) (Allocates s 1)
  both_ranges random some_block (none, s') run (finds b t) second = cc t.address
  both_ranges random some_block (some addr, s') run (finds b t) second =
      ((some addr, s'), alloc_single_first random addr s' some_block run, Claim.takes b t)
  both_ranges random some_block r run (misses late) (r', second_run, early) = (
    r',
    alloc_single_second random some_block run ∙ second_run,
    round random some_block late r' early,
  )

  -- For a segment in order, whose hint is below 2 ^ 57, and any random number, `alloc_single`
  -- returns without panic: it takes one free block, or every block is in use and the segment is
  -- unchanged.
  pub alloc_single-Allocates : (random : ℕ) → Returns (alloc_single random s) (Allocates s 1)
  alloc_single-Allocates random = elim (ℕ_discrete (max_bits s) 0) [
    | yes empty ↦
        ((none, s), no_block empty random, exhausted (λ b inside free. absurd (omega arith)))
    | no some_block ↦
        let start = start_chunk random in
        let below : start < chunks = start_chunk-lt random some_block in
        let (r, run, found) =
          scan_chunks-Searches (chunks - start) start (chunks * 64) (omega arith) (
            ap (λ (n : ℕ). n * 64)
              (let e : chunks ≡ start + (chunks - start) = omega arith in e)) in
        both_ranges random some_block r run found
          (scan_chunks-Searches start 0 (start * 64) (omega arith) (omega arith))
  ]
