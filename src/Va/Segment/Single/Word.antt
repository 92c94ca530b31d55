-- ===== src/Va/Segment/Single/Word.antt =====
-- `Segment::alloc_single` of src/va/bitmap.rs: the search of one word.
use oxidalloc.Prelude.{
  ℕ, suc, ◌+◌, ◌-◌, ◌*◌, ◌/◌, ◌%◌, ◌^◌, ◌≤◌, ◌<◌, ◌≡◌, refl, sym, ◌∙◌, arith, Bool, true, false,
  ◌&&◌, ◌||◌, not, Bool-cases, inl, inr, leb, ◌==◌, Option, none, some, ==_iff,
}
use oxidalloc.Prelude.Word.{
  u64_max, ◌<<<◌, complement, bit, trailing_zeros, trailing_zeros_lem, bit-complement,
  complement-lt, bit-u64_max, bit-or, bit_ones, one-shl, bit_or-lt,
}
use oxidalloc.Outcome.{ok, Returns}
use oxidalloc.Va.Segment.Defs.{Segment, block_size, max_bits, try_claim}
use oxidalloc.Va.Segment.View.{used, IsValid}
use oxidalloc.Va.Segment.Claim.{Takes, try_claim_free}
use oxidalloc.Va.Segment.Single.{scan_chunk, valid_chunk}

or_false : (b : Bool) → (b || false) ≡ b
or_false true = refl
or_false false = refl

-- the bits of the local copy of the word
pub bit-valid_chunk :
    (total i word k : ℕ)
    → i < (total + 63) / 64
    → k < 64
    → bit (valid_chunk total i word) k ≡ (bit word k || leb total (i * 64 + k))
unfolding valid_chunk
bit-valid_chunk total i word k h p =
    elim (Bool-cases (i == (total + 63) / 64 - 1 && not (total % 64 == 0))) [
      | inl last ↦
          let less : total % 64 < 64 = omega arith in
          rw last (
            rw
              (
                bit-or,
                bit-complement ((1 <<< (total % 64)) - 1) k (omega arith) p,
                one-shl (total % 64) less,
                bit_ones,
              )
              (ground arith))
      | inr whole ↦
          let within_range : leb total (i * 64 + k) ≡ false = ground arith in
          rw (whole, within_range) (sym (or_false (bit word k)))
    ]

pub valid_chunk-lt : (total i word : ℕ) → word < 2 ^ 64 → valid_chunk total i word < 2 ^ 64
unfolding valid_chunk
valid_chunk-lt total i word h =
    ground (arith, bit_or-lt 64 word _ h (complement-lt ((1 <<< (total % 64)) - 1)))

-- What a search over the blocks from `lo` below `hi` gives: a free block, or the segment as it was
-- and every block of the range that there is in use.
pub data Searches (s : Segment) (lo hi : ℕ) : Option ℕ × Segment → Type 0 where
  finds : {r : Option ℕ × Segment} (first : ℕ) → Takes s 1 first r → Searches s lo hi r
  misses :
      ((j : ℕ) → lo ≤ j → j < hi → j < max_bits s → used s j ≡ true) → Searches s lo hi (none, s)

complement_pos : (x : ℕ) → x < 2 ^ 64 → x == u64_max ≡ false → 0 < complement x
unfolding complement
complement_pos x h e = ground arith

or_eq_false : (a b : Bool) → (a || b) ≡ false → (a ≡ false) × (b ≡ false)
or_eq_false true b e = cc
or_eq_false false b e = (refl, e)

scan_chunk_takes :
    (s : Segment) (i chunk fuel : ℕ) (s' : Segment)
    → chunk == u64_max ≡ false
    → leb (max_bits s) (i * 64 + trailing_zeros (complement chunk)) ≡ false
    → try_claim s (i * 64 + trailing_zeros (complement chunk)) 1 ≡ ok (true, s')
    → scan_chunk (suc fuel) i chunk s
      ≡ ok (
        some (s'.va_start + (i * 64 + trailing_zeros (complement chunk)) * block_size),
        record s' { hint = i },
      )
unfolding scan_chunk
scan_chunk_takes s i chunk fuel s' clear past run = rw (clear, scan_chunk) (rw past (rw run))

module _ (s : Segment) (valid : IsValid s) (i : ℕ) (chunk : ℕ) (word : chunk < 2 ^ 64)
    (copy : (k : ℕ)
      → k < 64
      → bit chunk k ≡ (used s (i * 64 + k) || leb (max_bits s) (i * 64 + k))) where
  full_chunk : chunk ≡ u64_max → Searches s (i * 64) (i * 64 + 64) (none, s)
  full_chunk e = misses (λ j lo hi inside.
      let k = j - i * 64 in
      let place : i * 64 + k ≡ j = omega arith in
      let set : bit chunk k ≡ true = rw (e, bit-u64_max) (ground arith) in
      let either = rw place at (copy k (omega arith)) in ground arith)

  pub scan_chunk-Searches :
      (fuel : ℕ) → Returns (scan_chunk (suc fuel) i chunk s) (Searches s (i * 64) (i * 64 + 64))
  unfolding scan_chunk
  scan_chunk-Searches fuel = elim (Bool-cases (chunk == u64_max)) [
    | inl all ↦ ((none, s), rw (all, scan_chunk), full_chunk ((==_iff _ _).0 all))
    | inr some_clear ↦
        let b = trailing_zeros (complement chunk) in
        let (less, set, _) =
          trailing_zeros_lem (complement chunk) (complement-lt chunk)
            (complement_pos chunk word some_clear) in
        let clear : bit chunk b ≡ false = ground (arith, bit-complement chunk b word less) in
        let (unused, past) = or_eq_false _ _ (sym (copy b less) ∙ clear) in
        let (s', run, takes) =
          try_claim_free s (i * 64 + b) 1 i (let h = valid.bounded in ground arith) valid
            (ground arith) (λ j lo hi. let e : j ≡ i * 64 + b = omega arith in rw e unused) in
        (
          (some (s'.va_start + (i * 64 + b) * block_size), record s' { hint = i }),
          scan_chunk_takes s i chunk fuel s' some_clear past run,
          finds (i * 64 + b) takes,
        )
  ]
