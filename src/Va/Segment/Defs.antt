-- ===== src/Va/Segment/Defs.antt =====
-- src/va/bitmap.rs: the fields of `Segment`, `max_bits`, `try_claim`, `free` and `realloc_inplace`.
use oxidalloc.Prelude.{
  ℕ, suc, ◌+◌, ◌-◌, ◌*◌, ◌/◌, ◌%◌, ◌^◌, Bool, true, false, ◌&&◌, ◌||◌, Option, none, some, ltb, leb,
  ◌==◌, if◌then◌else◌, bit_or,
}
use oxidalloc.Outcome.{Outcome, ok, panic, ◌>>=◌}
use oxidalloc.Va.Words.{Words, each_chunk, claim_chunks, clear_bits, and_not}

abbrev pub block_size : ℕ
block_size = 4096

abbrev pub max_random_bytes : ℕ
max_random_bytes = 256 * 1024 * 1024

abbrev pub max_random_blocks : ℕ
max_random_blocks = max_random_bytes / block_size

-- `next` is the number of the segment that was created before, or null.
pub record Segment : Type 0 where
  pub next : Option ℕ
  pub va_start : ℕ
  pub va_end : ℕ
  pub map : Words
  pub claim : Words
  pub hint : ℕ
  pub map_len : ℕ
  pub full : Bool
  pub failed_trys : ℕ

abbrev pub max_bits : Segment → ℕ
max_bits s = (s.va_end - s.va_start) / block_size

-- `(size + BLOCK_SIZE - 1) / BLOCK_SIZE`, which panics where the sum leaves 64 bits
abbrev pub blocks : ℕ → ℕ
blocks size = (size + block_size - 1) / block_size

abbrev pub overflows : ℕ → Bool
overflows size = leb (2 ^ 64) (size + block_size)

-- The three loops: claim the words of the run, or stop and roll back; mark the run in the map; drop
-- the claims.
unfoldable pub try_claim : Segment → ℕ → ℕ → Outcome (Bool × Segment)
try_claim s start count = do
  (won, claimed) ← claim_chunks s.map_len s.map (suc count) start count 0 s.claim
  elim won [
    | false ↦ ok (false, record s { claim = claimed })
    | true ↦ do
      marked ← each_chunk bit_or s.map_len (suc count) start count 0 s.map
      dropped ← each_chunk and_not s.map_len (suc count) start count 0 claimed
      ok (true, record s { map = marked; claim = dropped })
  ]

unfoldable pub rollback : Segment → ℕ → ℕ → Outcome Segment
rollback s start count = do
  cleared ← clear_bits s.map_len count start s.map
  ok (record s { map = cleared })

-- the end of `free`: the hint moves down, and a large release reopens a full segment
unfoldable pub after_free : ℕ → ℕ → Segment → Segment
after_free start_idx size s =
    let chunk = start_idx / 64 in
    let hint = if ltb chunk s.hint then chunk else s.hint in
    if ltb max_random_bytes size && s.full
    then record s { hint = hint; failed_trys = (s.failed_trys + 255) % 256; full = false }
    else record s { hint = hint }

unfoldable pub free : Segment → ℕ → ℕ → Outcome Segment
free s addr size =
    if ltb addr s.va_start || leb s.va_end addr
    then ok s
    else if max_bits s == 0
    then ok s
    else let start_idx = (addr - s.va_start) / block_size in
      if leb (max_bits s) start_idx
      then ok s
      else if overflows size
      then panic
      else let wanted = blocks size in
        let count =
          if ltb (max_bits s) (start_idx + wanted) then max_bits s - start_idx else wanted in
        do cleared ← rollback s start_idx count; ok (after_free start_idx size cleared)

-- the result is the new size in bytes, or `none` where the blocks behind are not to be had
unfoldable pub realloc_inplace :
    Segment → (addr old_size new_size : ℕ) → Outcome (Option ℕ × Segment)
realloc_inplace s addr old_size new_size =
    let old_blocks = blocks old_size in
    let new_blocks = blocks new_size in
    let start_bit = (addr - s.va_start) / block_size in
    if overflows old_size || overflows new_size
    then panic
    else if new_blocks == old_blocks
    then ok (some (old_blocks * block_size), s)
    else if ltb addr s.va_start
    then panic
    else if ltb new_blocks old_blocks
    then (rollback s (start_bit + new_blocks) (old_blocks - new_blocks) >>= λ cleared.
        ok (some (new_blocks * block_size), cleared))
    else let growth_start = start_bit + old_blocks in
      let additional = new_blocks - old_blocks in
      if ltb (max_bits s) (growth_start + additional) then ok (none, s) else do
        (won, grown) ← try_claim s growth_start additional
        ok (if won then some (new_blocks * block_size) else none, grown)
