-- ===== src/Tests/VaBitmap.antt =====
-- A list of one segment, of 100 blocks from 0x100000 on and all free, and a system that gives every range
-- of less than 2^40 bytes at 0x700000000.
use oxidalloc.Prelude.{
  ℕ, zero, suc, ◌+◌, ◌<◌, ◌≡◌, ◌^◌, ◌/◌, refl, arith, Bool, true, false, Option, none, some, ltb,
  if◌then◌else◌,
}
use oxidalloc.Prelude.Word.{bit_zero}
use oxidalloc.Outcome.{Outcome, ok, Returns, ◌>>=◌}
use oxidalloc.Va.Radix.{
  Radix, chunk_size, get, store, map_memory, check_collision, collides_from, set, set_from,
  set_range,
}
use oxidalloc.Va.Reserve.{Reserve, randomize_base_hint, probe, get_va_from_kernel}
use oxidalloc.Va.Reserve.Halving.{IsBounded, Reserves, get_va_from_kernel-Reserves}
use oxidalloc.Va.Segment.Defs.{Segment}
use oxidalloc.Va.Segment.View
use oxidalloc.Va.Bitmap.{
  VaBitmap, free, realloc_inplace, ensure_radix, seed_of, add_segment, grow, alloc,
}
use oxidalloc.Va.Bitmap.View.{IsValid, link}
use oxidalloc.Va.Bitmap.Release.{Releases, free-Releases, Fits, realloc_inplace-Fits}
use oxidalloc.Va.Bitmap.Extend.{Grows}
use oxidalloc.Va.Bitmap.Grow.{grow-Grows}
use oxidalloc.Va.Bitmap.Ours.{Adds, is_ours-grow}
use oxidalloc.Va.Bitmap.Alloc.{Allots, alloc-Allots}

abbrev pub mmap : (call size : ℕ) → Bool
mmap call size = true

abbrev pub mmap_at : (call target size : ℕ) → Option ℕ
mmap_at call target size = if ltb size (2 ^ 40) then some 0x700000000 else none

abbrev pub getrandom : (call : ℕ) → Option ℕ
getrandom call = some 12345

abbrev start : Reserve
start = record {
  base_hint = 0;
  base_init = false;
  reserve = 0;
  latest_tried = 0;
  max_reservation = 2 ^ 44;
  calls = 0;
}

start-IsBounded : IsBounded start
start-IsBounded = record { tried = omega arith; most = omega arith }

abbrev segment : Segment
segment = record {
  next = none;
  va_start = 0x100000;
  va_end = 0x164000;
  map = λ i. 0;
  claim = λ i. 0;
  hint = 0;
  map_len = 2;
  full = false;
  failed_trys = 0;
}

segment-IsValid : View.IsValid segment
segment-IsValid = record {
  map_words = λ i. omega arith;
  claim_words = λ i. omega arith;
  quiet = λ i. bit_zero _;
  covered = omega arith;
  ordered = omega arith;
  bounded = omega arith;
  hinted = omega arith;
}

abbrev tree : Radix
tree = store (record { l1 = λ i. none }) 0 (λ j. 0) 0 1

abbrev pub one : VaBitmap
one = record {
  map = some 0;
  latest_segment = some 0;
  radix = some tree;
  count = 1;
  segments = λ i. segment;
  reserve = start;
}

entry : (k p : ℕ) → get tree k ≡ some p → p ≡ 1
unfolding get
entry k p e = ground arith

first_chunk : get tree 0 ≡ some 1
unfolding get
first_chunk = refl

below_one : (k : ℕ) → k < 1 → none ≡ link k
below_one zero h = refl
below_one (suc k) h = absurd (omega arith)

pub one-IsValid : IsValid one
one-IsValid = record {
  segs = λ k h. segment-IsValid;
  chain = refl;
  links = below_one;
  latest = λ k e. ground arith;
  mapped = λ k addr h has.
      let chunk : addr / chunk_size ≡ 0 = ground arith in
      let number : k ≡ 0 = omega arith in rw (chunk, number) first_chunk;
  entries = λ addr p e. (0, omega arith, entry _ p e);
  sizes = start-IsBounded;
  not_null = λ k h. omega arith;
}

get_va_from_kernel-Reserves_example :
    Reserves mmap_at getrandom start (get_va_from_kernel mmap_at getrandom start)
get_va_from_kernel-Reserves_example =
    get_va_from_kernel-Reserves mmap_at getrandom start start-IsBounded

free-Releases_example : Returns (free one 0x140000 8192) (Releases one 0x140000 8192)
free-Releases_example = free-Releases one one-IsValid 0x140000 8192 (omega arith)

realloc_inplace-Fits_example :
    Returns (realloc_inplace one 0x140000 4096 12288) (Fits one 0x140000 4096 12288)
realloc_inplace-Fits_example =
    realloc_inplace-Fits one one-IsValid 0x140000 4096 12288 (omega arith) (omega arith)
      (λ k h has. omega arith)

grow-Grows_example : Grows mmap mmap_at getrandom one (grow mmap mmap_at getrandom one)
grow-Grows_example = grow-Grows mmap mmap_at getrandom one one-IsValid

alloc-Allots_example :
    Allots mmap mmap_at getrandom
      (λ k. 77)
      3
      (omega arith)
      one
      (alloc mmap mmap_at getrandom (λ k. 77) 12288 one)
alloc-Allots_example =
    alloc-Allots mmap mmap_at getrandom (λ k. 77) 12288 one (omega arith) (omega arith) one-IsValid

-- 2^44 bytes are refused, and 2^39 are given
abbrev outcome : Outcome (Option ℕ × VaBitmap) → Outcome (Option ℕ × ℕ × ℕ × ℕ)
outcome r = do (made, b) ← r; ok (made, b.count, (b.segments 1).va_start, (b.segments 1).va_end)

grown_count :
    outcome (grow mmap mmap_at getrandom one) ≡ ok (some 1, 2, 0x700000000, 0x700000000 + 2 ^ 39)
unfolding grow ensure_radix randomize_base_hint probe get_va_from_kernel check_collision
    collides_from get set_range set_from set map_memory seed_of add_segment
grown_count = refl

-- the list behind the run of `grow`
abbrev list_of : Outcome (Option ℕ × VaBitmap) → VaBitmap
list_of (ok (made, b)) = b
list_of _ = one

grown_one : grow mmap mmap_at getrandom one ≡ ok (some 1, list_of (grow mmap mmap_at getrandom one))
unfolding grow ensure_radix randomize_base_hint probe get_va_from_kernel check_collision
    collides_from get set_range set_from set map_memory seed_of add_segment
grown_one = refl

is_ours-grow_example : Adds one (list_of (grow mmap mmap_at getrandom one)) 1 0x700000000
is_ours-grow_example =
    is_ours-grow one one-IsValid 0x700000000 mmap mmap_at getrandom 1
      (list_of (grow mmap mmap_at getrandom one)) grown_one
