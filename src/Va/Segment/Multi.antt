-- ===== src/Va/Segment/Multi.antt =====
-- src/va/bitmap.rs: `alloc_multi`, the search for a run of free blocks: from a random bit to the end,
-- then from the start to that bit, where a run may go on behind the bit.
pub mod Run
pub mod Turns
pub mod Range
pub mod Extend
pub mod Search
use oxidalloc.Prelude.{
  ℕ, zero, suc, ◌+◌, ◌-◌, ◌*◌, ◌/◌, ◌%◌, ◌^◌, min, Bool, true, false, ◌&&◌, ◌||◌, not, Option, none,
  some, ltb, leb, ◌==◌, if◌then◌else◌, bit_and,
}
use oxidalloc.Prelude.Word.{u64_max, ◌<<<◌}
use oxidalloc.Outcome.{Outcome, ok, panic, out_of_fuel, ◌>>=◌}
use oxidalloc.Va.Words.{load}
use oxidalloc.Va.Segment.Defs.{Segment, block_size, max_random_blocks, max_bits, try_claim}

-- The end of the loop over a range: the address, or `current_run` and `run_start`.
pub data Scan : Type 0 where
  found : (addr : ℕ) → Segment → Scan
  ended : (current_run run_start : ℕ) → Segment → Scan

-- `if self.try_claim(start, count) { hint.store(..); return Some(..) }`
unfoldable pub claim_run : Segment → (start count : ℕ) → Outcome (Option ℕ × Segment)
claim_run s start count = do
  (won, claimed) ← try_claim s start count
  ok (
      if won
      then (some (claimed.va_start + start * block_size), record claimed { hint = start / 64 })
      else (none, claimed))

-- `while global_bit < range_end`; every turn moves `global_bit` up
unfoldable pub scan_range :
    (count range_end fuel global_bit current_run run_start : ℕ) → Segment → Outcome Scan
scan_range count range_end zero global_bit current_run run_start s = out_of_fuel
scan_range count range_end (suc fuel) global_bit current_run run_start s =
    elim (ltb global_bit range_end) [
      | false ↦ ok (ended current_run run_start s)
      | true ↦ do
        chunk ← load s.map_len s.map (global_bit / 64)
        let start = if current_run == 0 then global_bit else run_start
        elim (global_bit % 64 == 0 && chunk == 0) [
          | true ↦
              let skip = min 64 (range_end - global_bit) in
              elim (leb count (current_run + skip)) [
                | true ↦ do
                  (addr, after) ← claim_run s start count
                  elim addr [
                    | some a ↦ ok (found a after)
                    | none ↦ scan_range count range_end fuel (global_bit + 1) 0 start after
                  ]
                | false ↦
                    scan_range count range_end fuel (global_bit + skip) (current_run + skip) start s
              ]
          | false ↦ elim (chunk == u64_max) [
            | true ↦ scan_range count range_end fuel ((global_bit / 64 + 1) * 64) 0 run_start s
            | false ↦ elim (bit_and chunk (1 <<< (global_bit % 64)) == 0) [
              | false ↦ scan_range count range_end fuel (global_bit + 1) 0 run_start s
              | true ↦ elim (current_run + 1 == count) [
                | true ↦ do
                  (addr, after) ← claim_run s start count
                  elim addr [
                    | some a ↦ ok (found a after)
                    | none ↦ scan_range count range_end fuel (global_bit + 1) 0 start after
                  ]
                | false ↦ scan_range count range_end fuel (global_bit + 1) (current_run + 1) start s
              ]
            ]
          ]
        ]
    ]

-- `while b < total_bits && extend < need`: how far the free blocks from `b` on go
unfoldable pub extend_run : (need b extend : ℕ) → Segment → Outcome ℕ
extend_run zero b extend s = ok extend
extend_run (suc need) b extend s = elim (ltb b (max_bits s)) [
  | false ↦ ok extend
  | true ↦ do
    chunk ← load s.map_len s.map (b / 64)
    elim (bit_and chunk (1 <<< (b % 64)) == 0) [
      | false ↦ ok extend
      | true ↦ extend_run need (b + 1) (extend + 1) s
    ]
]

-- the carry behind the second range
unfoldable pub carry_run :
    (count start_bit current_run run_start : ℕ) → Segment → Outcome (Option ℕ × Segment)
carry_run count start_bit current_run run_start s = do
  extend ← extend_run (count - current_run) start_bit 0 s
  elim (leb count (current_run + extend)) [
    | true ↦ claim_run s run_start count
    | false ↦ ok (none, s)
  ]

-- one turn of `for (range_start, range_end) in ..`
unfoldable pub search_range :
    (count start_bit range_start range_end : ℕ) → Segment → Outcome (Option ℕ × Segment)
search_range count start_bit range_start range_end s = do
  scan ← scan_range count range_end (suc (range_end - range_start)) range_start 0 0 s
  elim scan [
    | found addr after ↦ ok (some addr, after)
    | ended current_run run_start after ↦
        elim (range_start == 0 && range_end == start_bit && not (current_run == 0)) [
          | true ↦ carry_run count start_bit current_run run_start after
          | false ↦ ok (none, after)
        ]
  ]

unfoldable pub alloc_multi : (random count : ℕ) → Segment → Outcome (Option ℕ × Segment)
alloc_multi random count s =
    let total_bits = max_bits s in
    if total_bits == 0 || ltb total_bits count
    then ok (none, s)
    else let rand_bits = bit_and random (max_random_blocks - 1) in
      let start_bit = (s.hint * 64 + rand_bits) % total_bits in
      if leb (2 ^ 64) (s.hint * 64 + rand_bits) then panic else do
        (addr, after) ← search_range count start_bit start_bit total_bits s
        elim addr [
          | some a ↦ ok (some a, after)
          | none ↦ search_range count start_bit 0 start_bit after
        ]
