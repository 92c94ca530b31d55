-- ===== src/Va/Segment/Release.antt =====
-- `Segment::free` of src/va/bitmap.rs, and the blocks that it gives back.
use oxidalloc.Prelude.{
  ℕ, ◌+◌, ◌-◌, ◌*◌, ◌/◌, ◌≤◌, ◌<◌, ◌≡◌, refl, subst, arith, false, ◌&&◌, ◌||◌, not, min, Bool-cases,
  inl, inr, ltb, leb, ◌==◌, dec_lt, ◌⊎◌, if◌then◌else◌, ◌^◌,
}
use oxidalloc.Outcome.{ok, Returns}
use oxidalloc.Va.Words.Runs.{clear_bits-Changed}
use oxidalloc.Va.Segment.Defs.{
  Segment, block_size, max_random_bytes, overflows, max_bits, blocks, rollback, after_free, free,
}
use oxidalloc.Va.Segment.View.{IsValid, Becomes, Becomes-counters, releasing}

-- `rollback` leaves all but the map alone
pub record RollsBack (s : Segment) (lo hi : ℕ) (s' : Segment) : Type 0 where
  pub becomes : Becomes s (releasing s lo hi) s'
  pub hint : s'.hint ≡ s.hint
  pub full : s'.full ≡ s.full

module _ (s : Segment) (valid : IsValid s) where
  pub rollback-RollsBack :
      (start count : ℕ)
      → start + count ≤ 64 * s.map_len
      → Returns (rollback s start count) (RollsBack s start (start + count))
  unfolding rollback
  rollback-RollsBack start count room =
      let (cleared, run, after) =
        clear_bits-Changed s.map_len count start s.map room valid.map_words in
      (
        record s { map = cleared },
        rw run,
        record {
          hint = refl;
          full = refl;
          becomes = record {
            next = refl;
            va_start = refl;
            va_end = refl;
            map_len = refl;
            valid = record {
              map_words = after.words;
              claim_words = valid.claim_words;
              quiet = valid.quiet;
              covered = valid.covered;
              ordered = valid.ordered;
              bounded = valid.bounded;
              hinted = valid.hinted;
            };
            reads = after.bits;
          };
        },
      )

-- The blocks from that of `addr` on, at most to the end of the range, are free; the hint is not
-- above them; a large release reopens a segment that was marked full.
pub record Frees (s : Segment) (addr size : ℕ) (s' : Segment) : Type 0 where
  pub becomes :
      let first = (addr - s.va_start) / block_size in
      Becomes s (releasing s first (min (first + blocks size) (max_bits s))) s'
  pub hint :
      (addr - s.va_start) / block_size < max_bits s
      → s'.hint ≤ (addr - s.va_start) / block_size / 64
  pub full :
      (addr - s.va_start) / block_size < max_bits s
      → s'.full ≡ (s.full && not (ltb max_random_bytes size))

module _ (s s' : Segment) (addr size : ℕ) where
  abbrev first : ℕ
  first = (addr - s.va_start) / block_size

  after_free-Frees :
      RollsBack s first (min (first + blocks size) (max_bits s)) s'
      → Frees s addr size (after_free first size s')
  unfolding after_free
  after_free-Frees back = elim (Bool-cases (ltb max_random_bytes size && s'.full)) [
    | inl large ↦ rw large (record {
      becomes =
          Becomes-counters s s' _ _ _ false (let h = back.becomes.valid.hinted in ground arith)
            back.becomes;
      hint = λ _. ground arith;
      full = λ _. ground arith;
    })
    | inr small ↦ rw small (record {
      becomes =
          Becomes-counters s s' _ _ _ _ (let h = back.becomes.valid.hinted in ground arith)
            back.becomes;
      hint = λ _. ground arith;
      full = λ _. ground arith;
    })
  ]

module _ (s : Segment) (valid : IsValid s) (addr size : ℕ) (fits : size + block_size < 2 ^ 64) where
  abbrev idx : ℕ
  idx = (addr - s.va_start) / block_size

  abbrev wanted : ℕ
  wanted = if ltb (max_bits s) (idx + blocks size) then max_bits s - idx else blocks size

  free-run :
      (cleared : Segment)
      → s.va_start ≤ addr
      → addr < s.va_end
      → idx < max_bits s
      → rollback s idx wanted ≡ ok cleared
      → free s addr size ≡ ok (after_free idx size cleared)
  unfolding free
  free-run cleared lo hi some_block run =
      let in_range : (ltb addr s.va_start || leb s.va_end addr) ≡ false = ground arith in
      let not_empty : (max_bits s == 0) ≡ false = ground arith in
      let in_map : leb (max_bits s) idx ≡ false = ground arith in
      let sum : overflows size ≡ false = ground arith in
      rw in_range (rw not_empty (rw in_map (rw sum (rw run))))

  free_no_block : s.va_start ≤ addr → addr < s.va_end → max_bits s ≤ idx → free s addr size ≡ ok s
  unfolding free
  free_no_block lo hi none_there = ground arith

  -- `free` of an address in the segment, which is in order, returns and frees exactly the blocks of
  -- its range up to the end of the segment, moves the hint not above them, and reopens a full
  -- segment exactly when the size is above MAX_RANDOM_BYTES. Condition: the size plus one block is
  -- below 2 ^ 64.
  pub free-Frees :
      s.va_start ≤ addr → addr < s.va_end → Returns (free s addr size) (Frees s addr size)
  free-Frees lo hi = elim (dec_lt idx (max_bits s)) [
    | no none_there ↦ (
      s,
      free_no_block lo hi (omega arith),
      record {
        becomes = record {
          next = refl;
          va_start = refl;
          va_end = refl;
          map_len = refl;
          valid = valid;
          reads = λ i. ground arith;
        };
        hint = λ h. absurd (omega arith);
        full = λ h. absurd (omega arith);
      },
    )
    | yes some_block ↦
        let room : wanted ≤ max_bits s - idx = ground arith in
        let e : idx + wanted ≡ min (idx + blocks size) (max_bits s) = ground arith in
        let (cleared, run, back) =
          rollback-RollsBack s valid idx wanted (omega (arith, valid.covered)) in
        (
          after_free idx size cleared,
          free-run cleared lo hi some_block run,
          after_free-Frees s cleared addr size (subst (λ t. RollsBack s idx t cleared) e back),
        )
  ]

  pub free_outside : (addr < s.va_start) ⊎ (s.va_end ≤ addr) → free s addr size ≡ ok s
  unfolding free
  free_outside out = ground arith
