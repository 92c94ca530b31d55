-- ===== src/Va/Words/Runs.antt =====
-- The loops of src/va/bitmap.rs over a run of bits: their end, and what they change.
use oxidalloc.Prelude.{
  ℕ, zero, suc, ◌+◌, ◌-◌, ◌*◌, ◌/◌, ◌%◌, ◌≤◌, ◌<◌, ◌≡◌, refl, ap, ◌∙◌, arith, Bool, true, false,
  ◌||◌, ltb, lt→ltb, le→not_ltb, dec_lt,
}
use oxidalloc.Prelude.Word.{◌<<<◌}
use oxidalloc.Outcome.{Returns}
use oxidalloc.Va.Words.{
  Words, update, modify, chunk_mask, bits_in_chunk, each_chunk, rollback_claim, clear_bits,
}
use oxidalloc.Va.Words.Bits.{bit_at, within, AreWords, Acts, drop_bit, and_not-Acts}
use oxidalloc.Va.Words.Chunk.{chunk_mask-lt, AreWords-update, bit_at-update}

-- `w'` is `w` with `effect` on the bits from `lo` below `hi`
pub record Changed (effect : Bool → Bool → Bool) (w : Words) (lo hi : ℕ) (w' : Words) : Type 0 where
  pub words : AreWords w'
  pub bits : (i : ℕ) → bit_at w' i ≡ effect (bit_at w i) (within lo hi i)

-- two changes side by side are one
join_effect :
    {change : ℕ → ℕ → ℕ} {effect : Bool → Bool → Bool} (acts : Acts change effect)
    (b first later both : Bool)
    → (first ≡ true → later ≡ false)
    → both ≡ (first || later)
    → effect (effect b first) later ≡ effect b both
join_effect acts b true later both apart e = rw (apart refl, e, acts.idle)
join_effect acts b false later both apart e = rw (acts.idle, e)

module _ {change : ℕ → ℕ → ℕ} {effect : Bool → Bool → Bool} (acts : Acts change effect)
    (len start count : ℕ) (room : start + count ≤ 64 * len) where
  -- one round, on the bits that lie in one word
  each_chunk-step :
      (fuel processed : ℕ) (w : Words)
      → processed < count
      → let current = start + processed in
        let bits = bits_in_chunk current (count - processed) in
        each_chunk change len (suc fuel) start count processed w
        ≡ each_chunk change len fuel start count
            (processed + bits)
            (update w (current / 64) (change (w (current / 64)) (chunk_mask bits (current % 64))))
  unfolding each_chunk modify
  each_chunk-step fuel processed w more =
      let inside : ltb ((start + processed) / 64) len ≡ true = ground arith in
      rw (lt→ltb processed count more, each_chunk) (rw inside)

  pub each_chunk-Changed :
      (fuel processed : ℕ) (w : Words)
      → processed ≤ count
      → count - processed < fuel
      → AreWords w
      → Returns
          (each_chunk change len fuel start count processed w)
          (Changed effect w (start + processed) (start + count))
  each_chunk-Changed zero processed w le lt words = absurd (omega arith)
  each_chunk-Changed (suc fuel) processed w le lt words = elim (dec_lt processed count) [
    | no all ↦ (
      w,
      unfold each_chunk in rw (le→not_ltb processed count (omega arith), each_chunk),
      record {
        words = words;
        bits = λ i.
            let none_left : within (start + processed) (start + count) i ≡ false = ground arith in
            rw (none_left, acts.idle);
      },
    )
    | yes more ↦
        let current = start + processed in
        let bits = bits_in_chunk current (count - processed) in
        let (w', run, after) =
          each_chunk-Changed fuel (processed + bits) _ (omega arith) (omega arith)
            (AreWords-update acts w words (current / 64) _ (chunk_mask-lt bits (current % 64))) in
        (
          w',
          rw (each_chunk-step fuel processed w more) run,
          record {
            words = after.words;
            bits = λ i.
                after.bits i
                ∙ ap (λ b. effect b (within (start + (processed + bits)) (start + count) i))
                    (bit_at-update acts w words current bits i (omega arith))
                ∙ join_effect acts (bit_at w i) _ _ _ (λ now. ground arith) (ground arith);
          },
        )
  ]

module _ (len start count : ℕ) (room : start + count ≤ 64 * len) where
  -- `rollback_claim` clears the claims of its run
  pub rollback_claim-Changed :
      (claim : Words)
      → AreWords claim
      → Returns
          (rollback_claim len start count claim)
          (Changed drop_bit claim start (start + count))
  unfolding rollback_claim
  rollback_claim-Changed claim words =
      let e : start + 0 ≡ start = omega arith in
      rw e at (
        each_chunk-Changed and_not-Acts len start count room (suc count) 0 claim (omega arith)
          (omega arith) words)

-- the mask of one bit
single_mask : (shift : ℕ) → 1 <<< shift ≡ chunk_mask 1 shift
unfolding chunk_mask
single_mask shift = refl

module _ (len : ℕ) where
  -- `rollback` clears the bits of its run, one at a time
  pub clear_bits-Changed :
      (left idx : ℕ) (w : Words)
      → idx + left ≤ 64 * len
      → AreWords w
      → Returns (clear_bits len left idx w) (Changed drop_bit w idx (idx + left))
  unfolding clear_bits modify
  clear_bits-Changed zero idx w room words = (
    w,
    refl,
    record {
      words = words;
      bits = λ i.
          let none_left : within idx (idx + 0) i ≡ false = ground arith in
          rw (none_left, and_not-Acts.idle);
    },
  )
  clear_bits-Changed (suc left) idx w room words =
      let inside : ltb (idx / 64) len ≡ true = ground arith in
      let (w', run, after) =
        clear_bits-Changed left (idx + 1) _ (omega arith)
          (AreWords-update and_not-Acts w words (idx / 64) _ (chunk_mask-lt 1 (idx % 64))) in
      (
        w',
        rw (inside, single_mask) run,
        record {
          words = after.words;
          bits = λ i.
              after.bits i
              ∙ ap (λ b. drop_bit b (within (idx + 1) (idx + 1 + left) i))
                  (bit_at-update and_not-Acts w words idx 1 i (omega arith))
              ∙ join_effect and_not-Acts (bit_at w i) _ _ _ (λ now. ground arith) (ground arith);
        },
      )
