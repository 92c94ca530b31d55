-- ===== src/Va/Segment/Multi/Run.antt =====
-- What the loop over a range knows of the blocks behind it, and how each kind of turn keeps it.
use oxidalloc.Prelude.{
  ℕ, ◌+◌, ◌≤◌, ◌<◌, ◌≡◌, ◌≢◌, refl, subst, arith, true, ◌==◌, dec_lt, if◌then◌else◌,
}
use oxidalloc.Va.Segment.View.{used, AllFree}
use oxidalloc.Va.Segment.Defs.{Segment}

-- No run of `count` free blocks begins from `lo` below `hi`.
abbrev pub NoRun : Segment → (count lo hi : ℕ) → Type 0
NoRun s count lo hi = (b : ℕ) → lo ≤ b → b < hi → ¬ AllFree s b (b + count)

-- where the run that ends before `bit` begins
abbrev pub begin : (bit run start : ℕ) → ℕ
begin bit run start = if run == 0 then bit else start

-- At `bit`, with `run` free blocks behind it.
pub record Scanned (s : Segment) (count lo hi bit run start : ℕ) : Type 0 where
  pub behind : lo ≤ bit
  pub short : run < count
  pub joined : run ≢ 0 → start + run ≡ bit
  pub bounded : run ≢ 0 → bit ≤ hi
  pub free : AllFree s (begin bit run start) bit
  pub after : lo ≤ begin bit run start
  pub none_before : NoRun s count lo (begin bit run start)

module _ (s : Segment) (count lo hi bit run start : ℕ)
    (now : Scanned s count lo hi bit run start) where
  pub begin-add : begin bit run start + run ≡ bit
  begin-add = ground (arith, now.joined)

  -- a block in use at `bit`, and all up to `next`: no run begins at or before them
  pub Scanned-used :
      (next : ℕ)
      → bit < next
      → ((j : ℕ) → bit ≤ j → j < next → used s j ≡ true)
      → (start' : ℕ) → Scanned s count lo hi next 0 start'
  Scanned-used next more taken start' = record {
    behind = omega (arith, now.behind);
    short = omega (arith, now.short);
    joined = λ h. absurd (h refl);
    bounded = λ h. absurd (h refl);
    free = λ i p q. absurd (omega arith);
    after = omega (arith, now.behind);
    none_before = λ b p q all. elim (dec_lt b (begin bit run start)) [
      | yes early ↦ now.none_before b p early all
      | no late ↦ elim (dec_lt b bit) [
        | yes before ↦
            let u = taken bit (omega arith) more in
            let f = all bit (omega arith) (omega (arith, begin-add, now.short)) in cc
        | no from ↦
            let u = taken b (omega arith) q in
            let f = all b (omega arith) (omega (arith, now.short)) in cc
      ]
    ];
  }

  -- `more` free blocks from `bit` on, too few to make a run of `count`
  pub Scanned-free :
      (more : ℕ)
      → 0 < more
      → bit + more ≤ hi
      → run + more < count
      → AllFree s bit (bit + more)
      → Scanned s count lo hi (bit + more) (run + more) (begin bit run start)
  Scanned-free more pos fits few clear =
      let here : begin (bit + more) (run + more) (begin bit run start) ≡ begin bit run start =
        ground arith in
      record {
        behind = omega (arith, now.behind);
        short = few;
        joined = λ h. omega (arith, begin-add);
        bounded = λ h. fits;
        free = λ i p q. elim (dec_lt i bit) [
          | yes old ↦ now.free i (subst (λ t. t ≤ i) here p) old
          | no new ↦ clear i (omega arith) q
        ];
        after = rw here now.after;
        none_before = λ b p q all. now.none_before b p (subst (λ t. b < t) here q) all;
      }

  -- enough free blocks: the run to claim
  pub run-AllFree :
      (more : ℕ)
      → count ≤ run + more
      → AllFree s bit (bit + more)
      → AllFree s (begin bit run start) (begin bit run start + count)
  run-AllFree more enough clear i p q = elim (dec_lt i bit) [
    | yes old ↦ now.free i p old
    | no new ↦ clear i (omega arith) (omega (arith, begin-add))
  ]
