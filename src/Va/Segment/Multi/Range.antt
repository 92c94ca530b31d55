-- ===== src/Va/Segment/Multi/Range.antt =====
-- `Segment::alloc_multi` of src/va/bitmap.rs: the loop over one range, to its end.
use oxidalloc.Prelude.{
  ℕ, zero, suc, ◌+◌, ◌-◌, ◌*◌, ◌/◌, ◌%◌, ◌≤◌, ◌<◌, ◌≡◌, subst, ap, ◌∙◌, arith, min, true, false,
  ◌==◌, Bool-cases, inl, inr, ==_iff, some, ◌&&◌, not, leb, dec_le,
}
use oxidalloc.Prelude.Word.{bit, bit_zero, bit-u64_max, u64_max, test_bit}
use oxidalloc.Outcome.{Returns}
use oxidalloc.Va.Segment.Defs.{Segment, max_bits}
use oxidalloc.Va.Segment.View.{used, IsValid, AllFree}
use oxidalloc.Va.Segment.Claim.{Takes}
use oxidalloc.Va.Segment.Multi.{Scan, scan_range}
use oxidalloc.Va.Segment.Multi.Run.{
  Scanned, begin, begin-add, Scanned-used, Scanned-free, run-AllFree,
}
use oxidalloc.Va.Segment.Multi.Turns.{
  turn_end, turn_zero_claim, turn_zero_skip, turn_full, turn_used, turn_claim, turn_more,
}
pub use oxidalloc.Va.Segment.Multi.Turns.{claim_run_free}

pub data Scans (s : Segment) (count lo hi : ℕ) : Scan → Type 0 where
  finds :
      {addr : ℕ} {s' : Segment} (first : ℕ)
      → Takes s count first (some addr, s')
      → Scans s count lo hi (Scan.found addr s')
  ends :
      {run start : ℕ} (bit : ℕ)
      → hi ≤ bit
      → Scanned s count lo hi bit run start
      → Scans s count lo hi (Scan.ended run start s)

module _ (s : Segment) (valid : IsValid s) (count lo hi : ℕ) (inside : hi ≤ max_bits s) where
  abbrev Goes : ℕ → ℕ → ℕ → ℕ → Type 0
  Goes fuel bit run start = Returns (scan_range count hi fuel bit run start s) (Scans s count lo hi)

  zero_word :
      (b : ℕ) → b % 64 ≡ 0 → s.map (b / 64) ≡ 0 → (more : ℕ) → more ≤ 64 → AllFree s b (b + more)
  zero_word b aligned e more fits i p q =
      let word : i / 64 ≡ b / 64 = omega arith in rw word (rw (e, bit_zero))

  full_word :
      (b : ℕ) → s.map (b / 64) ≡ u64_max → (j : ℕ) → b ≤ j → j < (b / 64 + 1) * 64 → used s j ≡ true
  full_word b e j p q =
      let word : j / 64 ≡ b / 64 = omega arith in rw word (rw (e, bit-u64_max) (ground arith))

  -- the word is empty from its first bit on
  zero_turn :
      (fuel bit run start : ℕ)
      → bit < hi
      → bit % 64 ≡ 0
      → s.map (bit / 64) ≡ 0
      → Scanned s count lo hi bit run start
      → (run + min 64 (hi - bit) < count
          → Goes fuel (bit + min 64 (hi - bit)) (run + min 64 (hi - bit)) (begin bit run start))
      → Goes (suc fuel) bit run start
  zero_turn fuel bit run start more aligned e now rest =
      let skip = min 64 (hi - bit) in
      let loaded : bit / 64 < s.map_len = omega (arith, valid.covered) in
      let zero : (bit % 64 == 0 && s.map (bit / 64) == 0) ≡ true = ground arith in
      let clear = zero_word bit aligned e skip (omega arith) in
      elim (Bool-cases (leb count (run + skip))) [
        | inl enough ↦
            let le : count ≤ run + skip = ground arith in
            let (addr, s', claimed, taken) =
              claim_run_free s (begin bit run start) count valid
                (omega (arith, begin-add s count lo hi bit run start now))
                (run-AllFree s count lo hi bit run start now skip le clear) in
            (
              Scan.found addr s',
              turn_zero_claim s count hi fuel bit run start more loaded zero addr s' enough claimed,
              finds (begin bit run start) taken,
            )
        | inr few ↦
            let (r, run', scans) = rest (ground arith) in
            (r, turn_zero_skip s count hi fuel bit run start more loaded zero few ∙ run', scans)
      ]

  -- one bit of a word
  free_turn :
      (fuel bit run start : ℕ)
      → bit < hi
      → (bit % 64 == 0 && s.map (bit / 64) == 0) ≡ false
      → s.map (bit / 64) == u64_max ≡ false
      → used s bit ≡ false
      → Scanned s count lo hi bit run start
      → (run + 1 < count → Goes fuel (bit + 1) (run + 1) (begin bit run start))
      → Goes (suc fuel) bit run start
  free_turn fuel bit run start more a b free now rest =
      let loaded : bit / 64 < s.map_len = omega (arith, valid.covered) in
      let clear =
        test_bit (s.map (bit / 64)) (bit % 64) (valid.map_words _) (omega arith) ∙ ap not free in
      let here : AllFree s bit (bit + 1) =
        λ i p q. subst (λ t. used s t ≡ false) (let e : bit ≡ i = omega arith in e) free in
      elim (Bool-cases (run + 1 == count)) [
        | inl enough ↦
            let le : count ≤ run + 1 = ground arith in
            let (addr, s', claimed, taken) =
              claim_run_free s (begin bit run start) count valid
                (omega (arith, begin-add s count lo hi bit run start now))
                (run-AllFree s count lo hi bit run start now 1 le here) in
            (
              Scan.found addr s',
              turn_claim s count hi fuel bit run start more loaded a b clear addr s' enough claimed,
              finds (begin bit run start) taken,
            )
        | inr few ↦
            let (r, run', scans) = rest (ground (arith, now.short)) in
            (r, turn_more s count hi fuel bit run start more loaded a b clear few ∙ run', scans)
      ]

  pub scan_range-Scans :
      (fuel bit run start : ℕ)
      → hi - bit < fuel
      → Scanned s count lo hi bit run start
      → Goes fuel bit run start
  scan_range-Scans zero bit run start lt now = absurd (omega arith)
  scan_range-Scans (suc fuel) bit run start lt now = elim (dec_le hi bit) [
    | yes over ↦
        (Scan.ended run start s, turn_end s count hi fuel bit run start over, ends bit over now)
    | no not_over ↦
        let more : bit < hi = omega arith in
        let loaded : bit / 64 < s.map_len = omega (arith, valid.covered) in
        elim (Bool-cases (bit % 64 == 0 && s.map (bit / 64) == 0)) [
          | inl empty ↦
              let e : s.map (bit / 64) ≡ 0 = ground arith in
              let aligned : bit % 64 ≡ 0 = ground arith in
              let skip = min 64 (hi - bit) in
              zero_turn fuel bit run start more aligned e now (λ few.
                scan_range-Scans fuel (bit + skip) (run + skip) (begin bit run start) (omega arith)
                  (Scanned-free s count lo hi bit run start now skip (omega arith) (omega arith) few
                    (zero_word bit aligned e skip (omega arith))))
          | inr mixed ↦ elim (Bool-cases (s.map (bit / 64) == u64_max)) [
            | inl full ↦
                let e : s.map (bit / 64) ≡ u64_max = (==_iff _ _).0 full in
                let (r, run', scans) =
                  scan_range-Scans fuel ((bit / 64 + 1) * 64) 0 start (omega arith) (
                    Scanned-used s count lo hi bit run start now _ (omega arith) (full_word bit e)
                      start) in
                (r, turn_full s count hi fuel bit run start more loaded mixed full ∙ run', scans)
            | inr part ↦ elim (Bool-cases (used s bit)) [
              | inl set ↦
                  let seen =
                    test_bit (s.map (bit / 64)) (bit % 64) (valid.map_words _) (omega arith)
                    ∙ ap not set in
                  let (r, run', scans) = scan_range-Scans fuel (bit + 1) 0 start (omega arith) (
                    Scanned-used s count lo hi bit run start now _ (omega arith)
                      (λ j p q.
                        subst (λ t. used s t ≡ true) (let e : bit ≡ j = omega arith in e) set)
                      start) in
                  (
                    r,
                    turn_used s count hi fuel bit run start more loaded mixed part seen ∙ run',
                    scans,
                  )
              | inr free ↦ free_turn fuel bit run start more mixed part free now (λ few.
                  scan_range-Scans fuel (bit + 1) (run + 1) (begin bit run start) (omega arith) (
                    Scanned-free s count lo hi bit run start now 1 (omega arith) (omega arith) few
                      (λ i p q.
                        subst (λ t. used s t ≡ false) (let e : bit ≡ i = omega arith in e) free)))
            ]
          ]
        ]
  ]
