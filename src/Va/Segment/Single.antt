-- ===== src/Va/Segment/Single.antt =====
-- src/va/bitmap.rs: `alloc_single`, the search for one free block. Both ranges of its `for` are
-- one function, over the chunks from `i` on.
pub mod Word
pub mod Search
use oxidalloc.Prelude.{
  ℕ, zero, suc, ◌+◌, ◌-◌, ◌*◌, ◌/◌, ◌%◌, ◌^◌, Bool, true, false, ◌&&◌, not, Option, none, some, leb,
  ◌==◌, if◌then◌else◌, bit_or, bit_and,
}
use oxidalloc.Prelude.Word.{u64_max, ◌<<<◌, complement, trailing_zeros}
use oxidalloc.Outcome.{Outcome, ok, panic, out_of_fuel, ◌>>=◌}
use oxidalloc.Va.Words.{load}
use oxidalloc.Va.Segment.Defs.{Segment, block_size, max_random_blocks, max_bits, try_claim}

-- `while chunk != u64::MAX { .. }`: tries the lowest clear bit, and marks it in the local copy where
-- the claim fails
unfoldable pub scan_chunk : (fuel i chunk : ℕ) → Segment → Outcome (Option ℕ × Segment)
scan_chunk zero i chunk s = out_of_fuel
scan_chunk (suc fuel) i chunk s = elim (chunk == u64_max) [
  | true ↦ ok (none, s)
  | false ↦
      let bit = trailing_zeros (complement chunk) in
      let global_idx = i * 64 + bit in
      elim (leb (max_bits s) global_idx) [
        | true ↦ ok (none, s)
        | false ↦ do
          (won, claimed) ← try_claim s global_idx 1
          elim won [
            | true ↦
                ok (some (claimed.va_start + global_idx * block_size), record claimed { hint = i })
            | false ↦ scan_chunk fuel i (bit_or chunk (1 <<< bit)) claimed
          ]
      ]
]

-- the word of chunk `i`, with the bits past the end of the range set
unfoldable pub valid_chunk : (total_bits i word : ℕ) → ℕ
valid_chunk total_bits i word =
    let last_valid_bits = total_bits % 64 in
    if i == (total_bits + 63) / 64 - 1 && not (last_valid_bits == 0)
    then bit_or word (complement ((1 <<< last_valid_bits) - 1))
    else word

-- `for i in range_start..range_end`, with `left` chunks to go
unfoldable pub scan_chunks : (left i : ℕ) → Segment → Outcome (Option ℕ × Segment)
scan_chunks zero i s = ok (none, s)
scan_chunks (suc left) i s = do
  word ← load s.map_len s.map i
  elim (word == u64_max) [
    | true ↦ scan_chunks left (i + 1) s
    | false ↦ do
      (found, after) ← scan_chunk 65 i (valid_chunk (max_bits s) i word) s
      elim found [ some addr ↦ ok (some addr, after) | none ↦ scan_chunks left (i + 1) after ]
  ]

-- `random` is the value of `alloc_random()`
unfoldable pub alloc_single : (random : ℕ) → Segment → Outcome (Option ℕ × Segment)
alloc_single random s =
    let total_bits = max_bits s in
    if total_bits == 0
    then ok (none, s)
    else let chunks = (total_bits + 63) / 64 in
      let rand_blocks = bit_and random (max_random_blocks - 1) in
      let start_chunk = (s.hint * 64 + rand_blocks) / 64 % chunks in
      if leb (2 ^ 64) (s.hint * 64 + rand_blocks) then panic else do
        (found, after) ← scan_chunks (chunks - start_chunk) start_chunk s
        elim found [ some addr ↦ ok (some addr, after) | none ↦ scan_chunks start_chunk 0 after ]
