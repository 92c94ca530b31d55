-- ===== src/Va/Segment/Claim.antt =====
-- `Segment::try_claim` of src/va/bitmap.rs, and the blocks that it takes.
use oxidalloc.Prelude.{
  ℕ, suc, ◌+◌, ◌*◌, ◌≤◌, ◌≡◌, refl, arith, Bool, true, false, ◌||◌, bit_or, Option, none, some, ◌<◌,
  ◌^◌,
}
use oxidalloc.Outcome.{ok, ◌>>=◌, Returns}
use oxidalloc.Va.Words.{Words, each_chunk, claim_chunks, and_not}
use oxidalloc.Va.Words.Bits.{AreWords, or_Acts, and_not-Acts, drop_bit}
use oxidalloc.Va.Words.Runs.{Changed, each_chunk-Changed}
use oxidalloc.Va.Words.Claims.{Claimed, claim_chunks-Claimed}
use oxidalloc.Va.Segment.Defs.{Segment, block_size, max_bits, try_claim}
use oxidalloc.Va.Segment.View.{used, IsValid, Becomes, Becomes-counters, AllFree, taking}

-- The run from `lo` below `hi` is taken as a whole, or nothing changes.
pub record ClaimsUntil (s : Segment) (lo hi : ℕ) (r : Bool × Segment) : Type 0 where
  pub won : r.0 ≡ true → AllFree s lo hi × Becomes s (taking s lo hi) r.1
  pub lost : r.0 ≡ false → ¬ AllFree s lo hi × Becomes s (used s) r.1

abbrev pub Claims : Segment → ℕ → ℕ → Bool × Segment → Type 0
Claims s start count = ClaimsUntil s start (start + count)

module _ (s : Segment) (valid : IsValid s) (start count : ℕ)
    (room : start + count ≤ 64 * s.map_len) where
  at_zero : start + 0 ≡ start
  at_zero = omega arith

  chunks :
      Returns
        (claim_chunks s.map_len s.map (suc count) start count 0 s.claim)
        (Claimed s.map s.claim start start (start + count))
  chunks = rw at_zero at (
      claim_chunks-Claimed s.map_len start count room s.map valid.map_words (suc count) 0 s.claim
        (omega arith) (omega arith) valid.claim_words)

  marks :
      Returns
        (each_chunk bit_or s.map_len (suc count) start count 0 s.map)
        (Changed ◌||◌ s.map start (start + count))
  marks = rw at_zero at (
      each_chunk-Changed or_Acts s.map_len start count room (suc count) 0 s.map (omega arith)
        (omega arith) valid.map_words)

  drops :
      (claimed : Words)
      → AreWords claimed
      → Returns
          (each_chunk and_not s.map_len (suc count) start count 0 claimed)
          (Changed drop_bit claimed start (start + count))
  drops claimed words = rw at_zero at (
      each_chunk-Changed and_not-Acts s.map_len start count room (suc count) 0 claimed (omega arith)
        (omega arith) words)

  finish :
      (r : Bool × Words)
      → claim_chunks s.map_len s.map (suc count) start count 0 s.claim ≡ ok r
      → Claimed s.map s.claim start start (start + count) r
      → Returns (try_claim s start count) (Claims s start count)
  unfolding try_claim
  finish (false, claimed) run after = (
    (false, record s { claim = claimed }),
    rw run,
    record {
      won = λ t. cc;
      lost = λ _. (
        λ free. after.lost refl (λ i lo hi. (free i lo hi, valid.quiet i)),
        record {
          next = refl;
          va_start = refl;
          va_end = refl;
          map_len = refl;
          valid = record {
            map_words = valid.map_words;
            claim_words = after.words;
            quiet = λ i. ground (arith, after.restored refl i, valid.quiet i);
            covered = valid.covered;
            ordered = valid.ordered;
            bounded = valid.bounded;
            hinted = valid.hinted;
          };
          reads = λ i. refl;
        },
      );
    },
  )
  finish (true, claimed) run after =
      let (marked, mark_run, mark) = marks in
      let (dropped, drop_run, drop) = drops claimed after.words in
      (
        (true, record s { map = marked; claim = dropped }),
        rw (run, ◌>>=◌) (rw (mark_run, ◌>>=◌) (rw drop_run)),
        record {
          lost = λ f. cc;
          won = λ _. (
            λ i lo hi. (after.won refl i lo hi).0,
            record {
              next = refl;
              va_start = refl;
              va_end = refl;
              map_len = refl;
              valid = record {
                map_words = mark.words;
                claim_words = drop.words;
                quiet = λ i. ground (arith, drop.bits i, after.taken refl i, valid.quiet i);
                covered = valid.covered;
                ordered = valid.ordered;
                bounded = valid.bounded;
                hinted = valid.hinted;
              };
              reads = mark.bits;
            },
          );
        },
      )

  -- On a run inside the bitmap `try_claim` returns, and is all or nothing.
  pub try_claim-Claims : Returns (try_claim s start count) (Claims s start count)
  try_claim-Claims = let (r, run, after) = chunks in finish r run after

-- A run of `count` blocks is taken and its address returned.
pub record Takes (s : Segment) (count first : ℕ) (r : Option ℕ × Segment) : Type 0 where
  pub address : r.0 ≡ some (s.va_start + first * block_size)
  pub inside : first + count ≤ max_bits s
  pub free : AllFree s first (first + count)
  pub becomes : Becomes s (taking s first (first + count)) r.1

module _ (s : Segment) (first count hint : ℕ) (small : hint < 2 ^ 57) (valid : IsValid s)
    (inside : first + count ≤ max_bits s) (free : AllFree s first (first + count)) where
  abbrev TakesFree : Type 0
  TakesFree =
      (s' : Segment) × (try_claim s first count ≡ ok (true, s'))
      × Takes s count first (some (s'.va_start + first * block_size), record s' { hint = hint })

  claims-takes :
      (r : Bool × Segment)
      → try_claim s first count ≡ ok r
      → ClaimsUntil s first (first + count) r
      → TakesFree
  claims-takes (true, s') run claims =
      let (_, becomes) = claims.won refl in
      (
        s',
        run,
        record {
          address = rw becomes.va_start;
          inside = inside;
          free = free;
          becomes = Becomes-counters s s' _ hint _ _ small becomes;
        },
      )
  claims-takes (false, s') run claims = absurd ((claims.lost refl).0 free)

  -- A run that is free is taken by `try_claim`.
  pub try_claim_free : TakesFree
  try_claim_free =
      let (r, run, claims) = try_claim-Claims s valid first count (omega (arith, valid.covered)) in
      claims-takes r run claims

-- What a search of the whole segment gives: a run is taken, or the segment is as it was and has no
-- free run.
pub data Allocates (s : Segment) (count : ℕ) : Option ℕ × Segment → Type 0 where
  takes : {r : Option ℕ × Segment} (first : ℕ) → Takes s count first r → Allocates s count r
  exhausted :
      ((first : ℕ) → first + count ≤ max_bits s → ¬ AllFree s first (first + count))
      → Allocates s count (none, s)
