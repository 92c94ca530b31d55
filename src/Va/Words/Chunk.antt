-- ===== src/Va/Words/Chunk.antt =====
-- The part of a run of bits that lies in one word: the mask of `try_claim`, and a change under it.
use oxidalloc.Prelude.{
  ℕ, ◌+◌, ◌/◌, ◌%◌, ◌^◌, ◌≤◌, ◌<◌, ◌≡◌, arith, Bool, false, ◌==◌, Bool-cases, inl, inr, ==_iff,
}
use oxidalloc.Prelude.Word.{bit, one-shl, bit_shl, bit_ones, bit-u64_max}
use oxidalloc.Va.Words.{Words, update, chunk_mask}
use oxidalloc.Va.Words.Bits.{bit_at, within, AreWords, Acts}

pub bit-chunk_mask :
    (bits shift k : ℕ)
    → shift + bits ≤ 64
    → k < 64
    → bit (chunk_mask bits shift) k ≡ within shift (shift + bits) k
unfolding chunk_mask
bit-chunk_mask bits shift k fits h = elim (Bool-cases (bits == 64)) [
  | inl whole ↦ rw (whole, bit-u64_max) (ground arith)
  | inr part ↦
      let lt : bits < 64 = ground arith in
      rw (part, one-shl bits lt, bit_shl, bit_ones) (ground arith)
]

pub chunk_mask-lt : (bits shift : ℕ) → chunk_mask bits shift < 2 ^ 64
unfolding chunk_mask
chunk_mask-lt bits shift = ground arith

module _ {change : ℕ → ℕ → ℕ} {effect : Bool → Bool → Bool} (acts : Acts change effect) (w : Words)
    (words : AreWords w) where
  -- the changed words are words
  pub AreWords-update : (i mask : ℕ) → mask < 2 ^ 64 → AreWords (update w i (change (w i) mask))
  AreWords-update i mask small j = ground (arith, words j, acts.keeps (w i) mask (words i) small)

  -- the row after a change of `bits` bits from `current` on
  pub bit_at-update :
      (current bits i : ℕ)
      → current % 64 + bits ≤ 64
      → let c = current / 64 in
        bit_at (update w c (change (w c) (chunk_mask bits (current % 64)))) i
        ≡ effect (bit_at w i) (within current (current + bits) i)
  bit_at-update current bits i fits = elim (Bool-cases (current / 64 == i / 64)) [
    | inl here ↦
        let mask = chunk_mask bits (current % 64) in
        let same : current / 64 ≡ i / 64 = (==_iff _ _).0 here in
        let place : within (current % 64) (current % 64 + bits) (i % 64)
            ≡ within current (current + bits) i =
          ground arith in
        rw here (
          rw same (
            rw (
              acts.on_bit (w (i / 64)) mask (i % 64) (words _) (chunk_mask-lt bits _) (omega arith),
              bit-chunk_mask bits (current % 64) (i % 64) fits (omega arith),
              place,
            )))
    | inr away ↦
        let outside : within current (current + bits) i ≡ false = ground arith in
        rw (away, outside, acts.idle)
  ]
