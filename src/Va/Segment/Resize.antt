-- ===== src/Va/Segment/Resize.antt =====
-- `Segment::realloc_inplace` of src/va/bitmap.rs: the shrink, the growth and the refusal.
use oxidalloc.Prelude.{
  ℕ, ◌+◌, ◌-◌, ◌*◌, ◌/◌, ◌^◌, ◌||◌, ◌≤◌, ◌<◌, ◌≡◌, refl, subst, arith, Bool, true, false, Option,
  none, some, ltb, ◌==◌, dec_lt, Bool-cases, inl, inr, if◌then◌else◌, ◌⊎◌,
}
use oxidalloc.Outcome.{Returns}
use oxidalloc.Va.Words.Bits.{within, and_not-Acts}
use oxidalloc.Va.Segment.Defs.{Segment, block_size, max_bits, blocks, overflows, realloc_inplace}
use oxidalloc.Va.Segment.View.{used, IsValid, Becomes, Becomes-refl, AllFree, releasing, taking}
use oxidalloc.Va.Segment.Claim.{ClaimsUntil, try_claim-Claims}
use oxidalloc.Va.Segment.Release.{rollback-RollsBack}

-- The three things that can happen, for an allocation of `have` blocks from `first` on of which
-- `want` are asked for.
pub data Resizes (s : Segment) (first have want : ℕ) : Option ℕ × Segment → Type 0 where
  shrinks :
      {s' : Segment}
      → want ≤ have
      → Becomes s (releasing s (first + want) (first + have)) s'
      → Resizes s first have want (some (want * block_size), s')
  grows :
      {s' : Segment}
      → have < want
      → AllFree s (first + have) (first + want)
      → Becomes s (taking s (first + have) (first + want)) s'
      → Resizes s first have want (some (want * block_size), s')
  stays :
      {s' : Segment}
      → have < want
      → (max_bits s < first + want) ⊎ (¬ AllFree s (first + have) (first + want))
      → Becomes s (used s) s'
      → Resizes s first have want (none, s')

-- what `try_claim` did to the blocks behind, as a way to resize
outcome :
    (s : Segment) (first have want : ℕ)
    → have < want
    → (r : Bool × Segment) → ClaimsUntil s (first + have) (first + want) r
    → Resizes s first have want (if r.0 then some (want * block_size) else none, r.1)
outcome s first have want more (true, s') claims =
    let (free, becomes) = claims.won refl in grows more free becomes
outcome s first have want more (false, s') claims =
    let (taken, becomes) = claims.lost refl in stays more (inr taken) becomes

module _ (s : Segment) (valid : IsValid s) (addr old_size new_size : ℕ) (above : s.va_start ≤ addr)
    (old_fits : old_size + block_size < 2 ^ 64) (new_fits : new_size + block_size < 2 ^ 64) where
  sums : (overflows old_size || overflows new_size) ≡ false
  sums = ground arith

  in_range : ltb addr s.va_start ≡ false
  in_range = ground arith

  abbrev first : ℕ
  first = (addr - s.va_start) / block_size

  abbrev have : ℕ
  have = blocks old_size

  abbrev want : ℕ
  want = blocks new_size

  abbrev Resized : Type 0
  Resized = Returns (realloc_inplace s addr old_size new_size) (Resizes s first have want)

  same_blocks : want ≡ have → Resized
  unfolding realloc_inplace
  same_blocks e =
      let same : (want == have) ≡ true = ground arith in
      (
        (some (have * block_size), s),
        rw (sums, same) refl,
        subst (λ w. Resizes s first have want (some (w * block_size), s)) e
            (shrinks (omega arith) (record {
              next = refl;
              va_start = refl;
              va_end = refl;
              map_len = refl;
              valid = valid;
              reads = λ i.
                  let nothing : within (first + want) (first + have) i ≡ false = ground arith in
                  rw (nothing, and_not-Acts.idle);
            })),
      )

  shrink : first + have ≤ max_bits s → want < have → Resized
  unfolding realloc_inplace
  shrink held less =
      let differ : (want == have) ≡ false = ground arith in
      let smaller : ltb want have ≡ true = ground arith in
      let e : first + want + (have - want) ≡ first + have = omega arith in
      let (cleared, run, back) =
        rollback-RollsBack s valid (first + want) (have - want) (omega (arith, valid.covered)) in
      (
        (some (want * block_size), cleared),
        rw (sums, differ, in_range, smaller) (rw run),
        shrinks (omega arith)
            (subst (λ t. Becomes s (releasing s (first + want) t) cleared) e back.becomes),
      )

  growth : have < want → Resized
  unfolding realloc_inplace
  growth more =
      let differ : (want == have) ≡ false = ground arith in
      let larger : ltb want have ≡ false = ground arith in
      let e : first + have + (want - have) ≡ first + want = omega arith in
      elim (Bool-cases (ltb (max_bits s) (first + have + (want - have)))) [
        | inl beyond ↦ (
          (none, s),
          rw (sums, differ, in_range, larger) (rw beyond),
          stays more (inl (ground arith)) (Becomes-refl s valid),
        )
        | inr inside ↦
            let (r, run, claims) =
              try_claim-Claims s valid (first + have) (want - have)
                (ground (arith, valid.covered)) in
            (
              (if r.0 then some (want * block_size) else none, r.1),
              rw (sums, differ, in_range, larger) (rw inside (rw run)),
              outcome s first have want more r
                  (subst (λ t. ClaimsUntil s (first + have) t r) e claims),
            )
      ]

  -- `realloc_inplace` of a run in the segment, which is in order, returns in one of three ways: it
  -- shrinks and frees exactly the tail, grows over blocks that were all free, or refuses a growth
  -- that leaves the segment or meets a used block and changes nothing. Conditions: the address is
  -- not below the segment, and each size plus one block is below 2 ^ 64.
  pub realloc_inplace-Resizes : first + have ≤ max_bits s → Resized
  realloc_inplace-Resizes held = elim (dec_lt want have) [
    | yes less ↦ shrink held less
    | no not_less ↦ elim (dec_lt have want) [
      | yes more ↦ growth more
      | no not_more ↦ same_blocks (omega arith)
    ]
  ]
