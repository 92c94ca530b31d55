-- ===== src/Va/Words.antt =====
-- src/va/bitmap.rs: the words behind a segment's `map` and `claim`, and the loops of `try_claim`,
-- `rollback_claim` and `rollback` that go over the words of a run of bits.
-- A read or write of an index from `len` on panics, as Rust's slice does.
pub mod Bits
pub mod Chunk
pub mod Runs
pub mod Claims
use oxidalloc.Prelude.{
  ℕ, zero, suc, ◌+◌, ◌-◌, ◌*◌, ◌/◌, ◌%◌, ◌^◌, min, bit_and, bit_or, Bool, true, false, ltb, ◌==◌,
  if◌then◌else◌,
}
use oxidalloc.Prelude.Word.{u64_max, ◌<<<◌, complement}
use oxidalloc.Outcome.{Outcome, ok, panic, out_of_fuel, ◌>>=◌}

-- `&[AtomicU64]` without its length
abbrev pub Words : Type 0
Words = ℕ → ℕ

abbrev pub update : Words → ℕ → ℕ → Words
update w i v j = if i == j then v else w j

-- `words[i].load(..)`
unfoldable pub load : ℕ → Words → ℕ → Outcome ℕ
load len w i = if ltb i len then ok (w i) else panic

-- `words[i].fetch_or(mask)` and `words[i].fetch_and(!mask)`: `change` is `bit_or` or `and_not`
unfoldable pub modify : (ℕ → ℕ → ℕ) → ℕ → Words → ℕ → ℕ → Outcome Words
modify change len w i mask = if ltb i len then ok (update w i (change (w i) mask)) else panic

abbrev pub and_not : ℕ → ℕ → ℕ
and_not v mask = bit_and v (complement mask)

-- `bits_in_this_chunk`, at `current_bit`, with `left` bits still to process
abbrev pub bits_in_chunk : ℕ → ℕ → ℕ
bits_in_chunk current left = min (64 - current % 64) left

-- `mask`, of `bits` ones from bit `shift` on
unfoldable pub chunk_mask : ℕ → ℕ → ℕ
chunk_mask bits shift = if bits == 64 then u64_max else ((1 <<< bits) - 1) <<< shift

-- `while bits_processed < count { .. words[chunk_idx].change(mask); bits_processed += .. }`, the
-- shape of `rollback_claim` and of the last two loops of `try_claim`
unfoldable pub each_chunk :
    (ℕ → ℕ → ℕ) → ℕ → (fuel start count processed : ℕ) → Words → Outcome Words
each_chunk change len zero start count processed w = out_of_fuel
each_chunk change len (suc fuel) start count processed w = elim (ltb processed count) [
  | false ↦ ok w
  | true ↦
      let current = start + processed in
      let bits = bits_in_chunk current (count - processed) in
      modify change len w (current / 64) (chunk_mask bits (current % 64))
      >>= each_chunk change len fuel start count (processed + bits)
]

-- `rollback_claim`
unfoldable pub rollback_claim : ℕ → (start count : ℕ) → Words → Outcome Words
unfolding each_chunk modify chunk_mask complement
rollback_claim len start count claim = each_chunk and_not len (suc count) start count 0 claim

-- The first loop of `try_claim`: false is the early return. The inner loop runs once, since with no
-- other thread the exchange finds the value that was loaded (a spurious failure repeats the test).
unfoldable pub claim_chunks :
    ℕ → Words → (fuel start count processed : ℕ) → Words → Outcome (Bool × Words)
claim_chunks len map zero start count processed claim = out_of_fuel
claim_chunks len map (suc fuel) start count processed claim = elim (ltb processed count) [
  | false ↦ ok (true, claim)
  | true ↦
      let current = start + processed in
      let bits = bits_in_chunk current (count - processed) in
      let mask = chunk_mask bits (current % 64) in
      do
        claim_val ← load len claim (current / 64)
        map_val ← load len map (current / 64)
        elim (bit_and (bit_or claim_val map_val) mask == 0) [
          | false ↦ do restored ← rollback_claim len start processed claim; ok (false, restored)
          | true ↦
              claim_chunks len map fuel start count (processed + bits)
                (update claim (current / 64) (bit_or claim_val mask))
        ]
]

-- `rollback`: one bit at a time, with `left` rounds to go
unfoldable pub clear_bits : ℕ → (left idx : ℕ) → Words → Outcome Words
clear_bits len zero idx map = ok map
clear_bits len (suc left) idx map =
    modify and_not len map (idx / 64) (1 <<< (idx % 64)) >>= clear_bits len left (idx + 1)
