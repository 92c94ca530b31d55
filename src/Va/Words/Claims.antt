-- ===== src/Va/Words/Claims.antt =====
-- The first loop of `try_claim` of src/va/bitmap.rs, with its way back.
use oxidalloc.Prelude.{
  ℕ, zero, suc, ◌+◌, ◌-◌, ◌*◌, ◌/◌, ◌%◌, ◌≤◌, ◌<◌, ◌≡◌, sym, ◌∙◌, arith, bit_or, bit_and, Bool,
  true, false, ◌||◌, ltb, ◌==◌, Bool-cases, inl, inr, lt→ltb, le→not_ltb, dec_lt, ==_iff,
}
use oxidalloc.Prelude.Word.{bit, bit-or, bit_or-lt, clear_of_and, and-eq-zero}
use oxidalloc.Outcome.{ok, ◌>>=◌, Returns}
use oxidalloc.Va.Words.{
  Words, update, load, chunk_mask, bits_in_chunk, rollback_claim, claim_chunks,
}
use oxidalloc.Va.Words.Bits.{bit_at, within, AreWords, drop_bit, or_Acts}
use oxidalloc.Va.Words.Chunk.{bit-chunk_mask, chunk_mask-lt, AreWords-update, bit_at-update}
use oxidalloc.Va.Words.Runs.{rollback_claim-Changed}

-- no bit from `lo` below `hi` is set in `map` or in `claim`
abbrev pub AreFree : Words → Words → ℕ → ℕ → Type 0
AreFree map claim lo hi =
    (i : ℕ) → lo ≤ i → i < hi → (bit_at map i ≡ false) × (bit_at claim i ≡ false)

module _ (map claim : Words) (map_words : AreWords map) (words : AreWords claim) where
  -- the test of one word finds that the bits under its mask are free
  test_word :
      (current bits : ℕ)
      → current % 64 + bits ≤ 64
      → let c = current / 64 in
        let test = bit_and (bit_or (claim c) (map c)) (chunk_mask bits (current % 64)) == 0 in
        (test ≡ true → AreFree map claim current (current + bits))
        × (AreFree map claim current (current + bits) → test ≡ true)
  test_word current bits fits =
      let c = current / 64 in
      let shift = current % 64 in
      let taken = bit_or (claim c) (map c) in
      let mask = chunk_mask bits shift in
      (
        λ passed i lo hi.
            let same : i / 64 ≡ c = omega arith in
            let e : bit_and taken mask ≡ 0 = (==_iff _ _).0 passed in
            rw same (
              ground (
                arith,
                clear_of_and taken mask (i % 64) e,
                bit-chunk_mask bits shift (i % 64) fits (omega arith),
                bit-or (claim c) (map c) (i % 64),
              )),
        λ free. (==_iff _ _).1 (
            and-eq-zero taken mask (bit_or-lt 64 _ _ (words c) (map_words c))
              (chunk_mask-lt bits shift)
              (λ k h set.
                let under : within shift (shift + bits) k ≡ true =
                  sym (bit-chunk_mask bits shift k fits h) ∙ set in
                let word : (64 * c + k) / 64 ≡ c = omega arith in
                let place : (64 * c + k) % 64 ≡ k = omega arith in
                let (m, n) = free (64 * c + k) (ground arith) (ground arith) in
                let m' : bit (map c) k ≡ false = rw (word, place) at m in
                let n' : bit (claim c) k ≡ false = rw (word, place) at n in rw (bit-or, n', m'))),
      )

-- What the loop returns, over claims that it may have written below `lo`.
pub record Claimed (map claim : Words) (start lo hi : ℕ) (r : Bool × Words) : Type 0 where
  pub words : AreWords r.1
  pub won : r.0 ≡ true → AreFree map claim lo hi
  pub taken : r.0 ≡ true → (i : ℕ) → bit_at r.1 i ≡ (bit_at claim i || within lo hi i)
  pub lost : r.0 ≡ false → ¬ AreFree map claim lo hi
  pub restored :
      r.0 ≡ false → (i : ℕ) → bit_at r.1 i ≡ drop_bit (bit_at claim i) (within start lo i)

-- The claims of the first word and those of the rest are the claims of the run.
Claimed-extend :
    (map claim claim' : Words) (start lo mid hi : ℕ) (r : Bool × Words)
    → start ≤ lo
    → lo ≤ mid
    → mid ≤ hi
    → AreFree map claim lo mid
    → ((i : ℕ) → bit_at claim' i ≡ (bit_at claim i || within lo mid i))
    → Claimed map claim' start mid hi r
    → Claimed map claim start lo hi r
Claimed-extend map claim claim' start lo mid hi r a b c here step after = record {
  words = after.words;
  won = λ t i p q. elim (dec_lt i mid) [
    | yes first ↦ here i p first
    | no later ↦ let (m, n) = after.won t i (omega arith) q in (m, ground (arith, step i))
  ];
  taken = λ t i. ground (arith, after.taken t i, step i);
  lost = λ f free.
      after.lost f (λ i p q. let (m, n) = free i (omega arith) q in (m, ground (arith, step i)));
  restored = λ f i. ground (arith, after.restored f i, step i, here i);
}

module _ (len start count : ℕ) (room : start + count ≤ 64 * len) (map : Words)
    (map_words : AreWords map) where
  abbrev test : Words → ℕ → Bool
  test claim processed =
      let current = start + processed in
      let c = current / 64 in
      bit_and (bit_or (claim c) (map c))
        (chunk_mask (bits_in_chunk current (count - processed)) (current % 64))
      == 0

  abbrev next : Words → ℕ → Words
  next claim processed =
      let current = start + processed in
      let c = current / 64 in
      update claim c
        (bit_or (claim c) (chunk_mask (bits_in_chunk current (count - processed)) (current % 64)))

  claim_chunks-stop :
      (fuel : ℕ) (claim : Words)
      → claim_chunks len map (suc fuel) start count count claim ≡ ok (true, claim)
  unfolding claim_chunks
  claim_chunks-stop fuel claim = rw (le→not_ltb count count (omega arith), claim_chunks)

  claim_chunks-lost :
      (fuel processed : ℕ) (claim restored : Words)
      → processed < count
      → test claim processed ≡ false
      → rollback_claim len start processed claim ≡ ok restored
      → claim_chunks len map (suc fuel) start count processed claim ≡ ok (false, restored)
  unfolding claim_chunks load
  claim_chunks-lost fuel processed claim restored more held run =
      let inside : ltb ((start + processed) / 64) len ≡ true = ground arith in
      rw (lt→ltb processed count more, claim_chunks)
        (rw (inside, ◌>>=◌) (rw (held, ◌>>=◌) (rw run)))

  claim_chunks-won :
      (fuel processed : ℕ) (claim : Words)
      → processed < count
      → test claim processed ≡ true
      → claim_chunks len map (suc fuel) start count processed claim
        ≡ claim_chunks len map fuel start count
            (processed + bits_in_chunk (start + processed) (count - processed))
            (next claim processed)
  unfolding claim_chunks load
  claim_chunks-won fuel processed claim more held =
      let inside : ltb ((start + processed) / 64) len ≡ true = ground arith in
      rw (lt→ltb processed count more, claim_chunks) (rw (inside, ◌>>=◌) (rw (held, ◌>>=◌)))

  -- The loop ends, and takes the run or leaves the claims as they were.
  pub claim_chunks-Claimed :
      (fuel processed : ℕ) (claim : Words)
      → processed ≤ count
      → count - processed < fuel
      → AreWords claim
      → Returns
          (claim_chunks len map fuel start count processed claim)
          (Claimed map claim start (start + processed) (start + count))
  claim_chunks-Claimed zero processed claim le lt words = absurd (omega arith)
  claim_chunks-Claimed (suc fuel) processed claim le lt words = elim (dec_lt processed count) [
    | no all ↦
        let e : processed ≡ count = omega arith in
        (
          (true, claim),
          rw e (claim_chunks-stop fuel claim),
          record {
            words = words;
            won = λ _ i lo hi. absurd (omega arith);
            taken = λ _ i.
                let outside : within (start + processed) (start + count) i ≡ false = ground arith in
                rw (outside, or_Acts.idle);
            lost = λ f. cc;
            restored = λ f. cc;
          },
        )
    | yes more ↦ elim (Bool-cases (test claim processed)) [
      | inr held ↦
          let current = start + processed in
          let bits = bits_in_chunk current (count - processed) in
          let (restored, run, after) =
            rollback_claim-Changed len start processed (omega arith) claim words in
          (
            (false, restored),
            claim_chunks-lost fuel processed claim restored more held run,
            record {
              words = after.words;
              won = λ t. cc;
              taken = λ t. cc;
              lost = λ _ free.
                  let passed =
                    (test_word map claim map_words words current bits (omega arith)).1
                      (λ i lo hi. free i lo (omega arith)) in
                  cc;
              restored = λ _ i. after.bits i;
            },
          )
      | inl passed ↦
          let current = start + processed in
          let bits = bits_in_chunk current (count - processed) in
          let here = (test_word map claim map_words words current bits (omega arith)).0 passed in
          let (r, run, after) =
            claim_chunks-Claimed fuel (processed + bits) (next claim processed) (omega arith)
              (omega arith)
              (AreWords-update or_Acts claim words (current / 64) _
                (chunk_mask-lt bits (current % 64))) in
          (
            r,
            rw (claim_chunks-won fuel processed claim more passed) run,
            Claimed-extend map claim (next claim processed) start current
                (start + (processed + bits)) (start + count) r (omega arith) (omega arith)
                (omega arith) (λ i lo hi. here i lo (omega arith))
                (λ i.
                  let e : start + (processed + bits) ≡ current + bits = omega arith in
                  rw e (bit_at-update or_Acts claim words current bits i (omega arith)))
                after,
          )
    ]
  ]
