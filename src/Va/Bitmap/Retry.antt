-- ===== src/Va/Bitmap/Retry.antt =====
-- The growth of the list at the end of `alloc`, src/va/bitmap.rs, and what a growth does to the blocks.
use oxidalloc.Prelude.{
  ℕ, zero, suc, ◌≡◌, refl, sym, ap, ◌∙◌, subst, arith, Bool, Option, none, some, ℕ_discrete, dec_lt,
}
use oxidalloc.Outcome.{Outcome, ok, panic, ◌>>=◌}
use oxidalloc.Va.Segment.Defs.{Segment}
use oxidalloc.Va.Bitmap.{VaBitmap, grow, grow_retry}
use oxidalloc.Va.Bitmap.View.{IsValid}
use oxidalloc.Va.Bitmap.Blocks.{Holds}
use oxidalloc.Va.Bitmap.Extend.{Extends, Keeps, Unfit, Starved, Grows, grown, failed, stopped}
use oxidalloc.Va.Bitmap.Grow.{grow-Grows}

pub Extends-Holds : (b c : VaBitmap) → Extends b c → Holds b c
Extends-Holds b c e = record {
  ranges = record {
    grew = omega (arith, e.count);
    va_start = λ j h. rw (e.old j h) refl;
    va_end = λ j h. rw (e.old j h) refl;
  };
  now = λ j i. elim (dec_lt j b.count) [
    | yes old ↦ rw (e.old j old) (ground (arith, e.count))
    | no from ↦ elim (ℕ_discrete j b.count) [
      | yes new ↦ rw new (ground (arith, e.free i))
      | no beyond ↦ ground (arith, e.count)
    ]
  ];
  valid = e.valid;
}

pub Keeps-Holds : (b c : VaBitmap) → Keeps b c → Holds b c
Keeps-Holds b c k = record {
  ranges = record {
    grew = omega (arith, k.count);
    va_start = λ j h. rw k.old refl;
    va_end = λ j h. rw k.old refl;
  };
  now = λ j i. rw (k.count, k.old) refl;
  valid = k.valid;
}

Keeps-Extends : (b c d : VaBitmap) → Keeps b c → Extends c d → Extends b d
Keeps-Extends b c d k e = record {
  count = e.count ∙ ap suc k.count;
  old = λ j h. e.old j (omega (arith, k.count)) ∙ ap (λ (f : ℕ → Segment). f j) k.old;
  room = rw k.count at e.room;
  free = λ i. rw k.count at (e.free i);
  latest = e.latest ∙ k.latest;
  valid = e.valid;
}

Keeps-trans : (b c d : VaBitmap) → Keeps b c → Keeps c d → Keeps b d
Keeps-trans b c d k l = record {
  count = l.count ∙ k.count;
  old = l.old ∙ k.old;
  latest = l.latest ∙ k.latest;
  tree = λ addr. l.tree addr ∙ k.tree addr;
  valid = l.valid;
}

Keeps-refl : (b : VaBitmap) → IsValid b → Keeps b b
Keeps-refl b valid = record {
  count = refl;
  old = refl;
  latest = refl;
  tree = λ addr. refl;
  valid = valid;
}

module _ (mmap : (call size : ℕ) → Bool) (mmap_at : (call target size : ℕ) → Option ℕ)
    (getrandom : (call : ℕ) → Option ℕ) where
  abbrev pub Growing : VaBitmap → Outcome (Option ℕ × VaBitmap) → Type 0
  Growing = Grows mmap mmap_at getrandom

  -- runs of `grow` that gave no segment, one after the other
  pub data Attempts (b : VaBitmap) : VaBitmap → Type 0 where
    none_yet : Attempts b b
    one_more :
        {c d : VaBitmap}
        → Attempts b c
        → grow mmap mmap_at getrandom c ≡ ok (none, d)
        → Attempts b d

  -- the last run of `grow` gave no segment, for a reason
  pub record Failed (b : VaBitmap) : Type 0 where
    pub last : VaBitmap
    pub attempts : Attempts b last
    pub why : Unfit mmap mmap_at getrandom last

  -- the last run of `grow` aborted, for a reason
  pub record Stopped (b : VaBitmap) : Type 0 where
    pub last : VaBitmap
    pub attempts : Attempts b last
    pub why : Starved mmap mmap_at getrandom last

  -- what the repeated runs give
  pub data Retries (b : VaBitmap) : Outcome (Option ℕ × VaBitmap) → Type 0 where
    made : {b' : VaBitmap} → Extends b b' → Retries b (ok (some b.count, b'))
    gave_up : {b' : VaBitmap} → Keeps b b' → Failed b → Retries b (ok (none, b'))
    halted : Stopped b → Retries b panic

  module _ (b : VaBitmap) where
    retry_step :
        (left : ℕ) (c : VaBitmap)
        → Keeps b c
        → Attempts b c
        → (o : Outcome (Option ℕ × VaBitmap)) → grow mmap mmap_at getrandom c ≡ o
        → Growing c o
        → ((d : VaBitmap)
            → Keeps b d
            → Attempts b d
            → Failed b
            → Retries b (grow_retry mmap mmap_at getrandom left d))
        → Retries b (
            o >>= (λ (r : Option ℕ × VaBitmap). elim r.0 [
              | some k ↦ ok (some k, r.1)
              | none ↦ grow_retry mmap mmap_at getrandom left r.1
            ]))
    retry_step left c k at _ run (grown {b' = d} e) rest =
        subst (λ t. Retries b (ok (some t, d))) (sym k.count) (made (Keeps-Extends b c d k e))
    retry_step left c k at _ run (failed {b' = d} l unfit) rest =
        rest d (Keeps-trans b c d k l) (one_more at run)
          (record { last = c; attempts = at; why = unfit })
    retry_step left c k at _ run (stopped why) rest =
        halted (record { last = c; attempts = at; why = why })

    again :
        (left : ℕ) (c : VaBitmap)
        → Keeps b c
        → Attempts b c
        → Failed b
        → Retries b (grow_retry mmap mmap_at getrandom left c)
    unfolding grow_retry
    again zero c k at why = gave_up k why
    again (suc left) c k at why =
        retry_step left c k at _ refl (grow-Grows mmap mmap_at getrandom c k.valid)
          (λ d l more last. again left d l more last)

    -- `grow` is tried ten times: a new segment, or the reason why the last run gave none
    pub grow_retry-Retries :
        (left : ℕ) → IsValid b → Retries b (grow_retry mmap mmap_at getrandom (suc left) b)
    unfolding grow_retry
    grow_retry-Retries left valid =
        retry_step left b (Keeps-refl b valid) none_yet _ refl
          (grow-Grows mmap mmap_at getrandom b valid) (λ d l more last. again left d l more last)
