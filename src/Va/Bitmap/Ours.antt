-- ===== src/Va/Bitmap/Ours.antt =====
-- `is_ours` of src/va/bitmap.rs before and after `grow`.
use oxidalloc.Prelude.{
  ℕ, ◌≤◌, ◌<◌, ◌≡◌, subst, arith, Bool, true, ◌⊎◌, inl, inr, Option, some, dec_lt,
}
use oxidalloc.Outcome.{ok}
use oxidalloc.Va.Bitmap.{VaBitmap, is_ours, grow}
use oxidalloc.Va.Bitmap.View.{IsValid, is_ours_lem}
use oxidalloc.Va.Bitmap.Extend.{Extends, Grows, grown}
use oxidalloc.Va.Bitmap.Grow.{grow-Grows}

-- the addresses that are ours in `b'` are those of `b` and those of segment `k`
pub record Adds (b b' : VaBitmap) (k addr : ℕ) : Type 0 where
  pub only :
      is_ours b' addr ≡ true
      → (is_ours b addr ≡ true)
        ⊎ ((b'.segments k).va_start ≤ addr) × (addr < (b'.segments k).va_end)
  pub old : is_ours b addr ≡ true → is_ours b' addr ≡ true
  pub new : (b'.segments k).va_start ≤ addr → addr < (b'.segments k).va_end → is_ours b' addr ≡ true

module _ (b : VaBitmap) (valid : IsValid b) (addr : ℕ) where
  Extends-Adds : (b' : VaBitmap) → Extends b b' → Adds b b' b.count addr
  Extends-Adds b' e = record {
    only = λ ours.
        let (j, h, lo, hi) = (is_ours_lem b' e.valid addr).0 ours in
        elim (dec_lt j b.count) [
          | yes old ↦
              let same = e.old j old in
              inl ((is_ours_lem b valid addr).1 j old (rw same at lo) (rw same at hi))
          | no late ↦
              let last : j ≡ b.count = omega (arith, h, e.count) in
              inr (rw last at lo, rw last at hi)
        ];
    old = λ ours.
        let (j, h, lo, hi) = (is_ours_lem b valid addr).0 ours in
        let same = e.old j h in
        (is_ours_lem b' e.valid addr).1 j (omega (arith, h, e.count)) (rw same lo) (rw same hi);
    new = λ lo hi. (is_ours_lem b' e.valid addr).1 b.count (omega (arith, e.count)) lo hi;
  }

  Grows-Adds :
      (mmap : (call size : ℕ) → Bool) (mmap_at : (call target size : ℕ) → Option ℕ)
      (getrandom : (call : ℕ) → Option ℕ) (k : ℕ) (b' : VaBitmap)
      → Grows mmap mmap_at getrandom b (ok (some k, b'))
      → Adds b b' k addr
  Grows-Adds mmap mmap_at getrandom _ b' (grown e) = Extends-Adds b' e

  -- On a list of segments in order, when `grow` makes a segment, `is_ours` is true behind it
  -- exactly on the addresses on which it was true before and on those from the start of the new
  -- segment to below its end.
  pub is_ours-grow :
      (mmap : (call size : ℕ) → Bool) (mmap_at : (call target size : ℕ) → Option ℕ)
      (getrandom : (call : ℕ) → Option ℕ) (k : ℕ) (b' : VaBitmap)
      → grow mmap mmap_at getrandom b ≡ ok (some k, b')
      → Adds b b' k addr
  is_ours-grow mmap mmap_at getrandom k b' run =
      Grows-Adds mmap mmap_at getrandom k b'
        (subst (Grows mmap mmap_at getrandom b) run (grow-Grows mmap mmap_at getrandom b valid))
