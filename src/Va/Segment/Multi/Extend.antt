-- ===== src/Va/Segment/Multi/Extend.antt =====
-- How far the free blocks behind the second range go.
use oxidalloc.Prelude.{
  ℕ, zero, suc, ◌+◌, ◌-◌, ◌/◌, ◌%◌, ◌≤◌, ◌<◌, ◌≡◌, refl, subst, ap, ◌∙◌, arith, true, false, ltb,
  dec_lt, ℕ_discrete, Bool-cases, inl, inr, not, lt→ltb, le→not_ltb,
}
use oxidalloc.Prelude.Word.{test_bit}
use oxidalloc.Outcome.{ok, ◌>>=◌, Returns}
use oxidalloc.Va.Words.{load}
use oxidalloc.Va.Segment.Defs.{Segment, max_bits}
use oxidalloc.Va.Segment.View.{used, IsValid, AllFree}
use oxidalloc.Va.Segment.Multi.{extend_run}

-- `extend` free blocks stand from `start_bit` on; with fewer than were needed, the next is in use or
-- past the end
pub record Extends (s : Segment) (need b extend total : ℕ) : Type 0 where
  pub most : total ≤ extend + need
  pub free : AllFree s b (b + (total - extend))
  pub least : extend ≤ total
  pub stop :
      total < extend + need
      → b + (total - extend) < max_bits s
      → used s (b + (total - extend)) ≡ true
  pub inside : b ≤ max_bits s → b + (total - extend) ≤ max_bits s

module _ (s : Segment) (valid : IsValid s) where
  extend_run_out :
      (need b extend : ℕ) → max_bits s ≤ b → extend_run (suc need) b extend s ≡ ok extend
  unfolding extend_run
  extend_run_out need b extend over = rw (le→not_ltb b (max_bits s) over, extend_run)

  module _ (need b extend : ℕ) (more : b < max_bits s) where
    reads : ltb (b / 64) s.map_len ≡ true
    reads = lt→ltb _ _ (omega (arith, valid.covered))

    extend_run-used : used s b ≡ true → extend_run (suc need) b extend s ≡ ok extend
    unfolding extend_run load
    extend_run-used set =
        let seen =
          test_bit (s.map (b / 64)) (b % 64) (valid.map_words _) (omega arith) ∙ ap not set in
        rw (lt→ltb b (max_bits s) more, extend_run) (rw (reads, ◌>>=◌) (rw seen))

    extend_run-free :
        used s b ≡ false → extend_run (suc need) b extend s ≡ extend_run need (b + 1) (extend + 1) s
    unfolding extend_run load
    extend_run-free free =
        let clear =
          test_bit (s.map (b / 64)) (b % 64) (valid.map_words _) (omega arith) ∙ ap not free in
        rw (lt→ltb b (max_bits s) more, extend_run) (rw (reads, ◌>>=◌) (rw clear))

  extend-one :
      (need b extend total : ℕ)
      → b < max_bits s
      → used s b ≡ false
      → Extends s need (b + 1) (extend + 1) total
      → Extends s (suc need) b extend total
  extend-one need b extend total more free after =
      let e : b + 1 + (total - (extend + 1)) ≡ b + (total - extend) = omega (arith, after.least) in
      record {
        most = omega (arith, after.most);
        free = λ i p q. elim (ℕ_discrete i b) [
          | yes here ↦ rw here free
          | no later ↦ after.free i (omega arith) (omega arith)
        ];
        least = omega (arith, after.least);
        stop = λ h k. subst (λ t. used s t ≡ true) e (after.stop (omega arith) (omega arith));
        inside = λ h. omega (arith, after.inside (omega arith));
      }

  pub extend_run-Extends :
      (need b extend : ℕ) → Returns (extend_run need b extend s) (Extends s need b extend)
  extend_run-Extends zero b extend = (
    extend,
    unfold extend_run in refl,
    record {
      most = omega arith;
      free = λ i p q. absurd (omega arith);
      least = omega arith;
      stop = λ h. absurd (omega arith);
      inside = λ h. omega arith;
    },
  )
  extend_run-Extends (suc need) b extend = elim (dec_lt b (max_bits s)) [
    | no over ↦ (
      extend,
      extend_run_out need b extend (omega arith),
      record {
        most = omega arith;
        free = λ i p q. absurd (omega arith);
        least = omega arith;
        stop = λ h k. absurd (omega arith);
        inside = λ h. omega arith;
      },
    )
    | yes more ↦ elim (Bool-cases (used s b)) [
      | inl set ↦ (
        extend,
        extend_run-used need b extend more set,
        record {
          most = omega arith;
          free = λ i p q. absurd (omega arith);
          least = omega arith;
          stop = λ h k.
              subst (λ t. used s t ≡ true) (let e : b ≡ b + (extend - extend) = omega arith in e)
                set;
          inside = λ h. omega arith;
        },
      )
      | inr free ↦
          let (total, run, after) = extend_run-Extends need (b + 1) (extend + 1) in
          (
            total,
            extend_run-free need b extend more free ∙ run,
            extend-one need b extend total more free after,
          )
    ]
  ]
