-- ===== src/Va/Bitmap.antt =====
-- src/va/bitmap.rs: `VaBitmap`, the list of segments. The segment that was made `n`th has the number
-- `n`, and its pointer is `suc n`; `next` and `map` are numbers, `none` for null. The calls of the system
-- are arguments: `mmap` for memory at any place, `mmap_at` for a range of addresses, `getrandom`.
pub mod View
pub mod Extend
pub mod Grow
pub mod Ours
pub mod Blocks
pub mod Walk
pub mod Retry
pub mod Alloc
pub mod Undo
pub mod Release
use oxidalloc.Prelude.{
  ℕ, zero, suc, ◌+◌, ◌-◌, ◌*◌, ◌/◌, ◌%◌, ◌^◌, bit_xor, Bool, true, false, ◌&&◌, Option, none, some,
  ltb, leb, ◌==◌, if◌then◌else◌,
}
use oxidalloc.Prelude.Word.{◌<<<◌, ◌>>>◌}
use oxidalloc.Outcome.{Outcome, ok, panic, out_of_fuel, ◌>>=◌}
use oxidalloc.Va.Radix.{Radix, get_segment, map_memory, check_collision, set_range}
use oxidalloc.Va.Reserve.{Reserve, Range, get_va_from_kernel}
use oxidalloc.Va.Segment.Defs.{Segment, block_size, blocks, overflows}
use oxidalloc.Va.Segment.Defs
use oxidalloc.Va.Segment.Single.{alloc_single}
use oxidalloc.Va.Segment.Multi.{alloc_multi}

-- `radix` is `none` while `l1` is null; `segments` are the segments behind the pointers
pub record VaBitmap : Type 0 where
  pub map : Option ℕ
  pub latest_segment : Option ℕ
  pub radix : Option Radix
  pub count : ℕ
  pub segments : ℕ → Segment
  pub reserve : Reserve

abbrev pub put_segment : VaBitmap → ℕ → Segment → VaBitmap
put_segment b k s = record b { segments = λ i. if i == k then s else b.segments i }

abbrev pub contains : Segment → ℕ → Bool
contains s addr = leb s.va_start addr && ltb addr s.va_end

-- the segment that the tree gives for an address, by its number
abbrev pub pointer : VaBitmap → ℕ → Option ℕ
pointer b addr = elim b.radix [ none ↦ none | some r ↦ get_segment r addr ]

abbrev pub lookup : VaBitmap → ℕ → Option ℕ
lookup b addr = elim (pointer b addr) [ some p ↦ some (p - 1) | none ↦ none ]

unfoldable pub is_ours : VaBitmap → ℕ → Bool
is_ours b addr = elim (lookup b addr) [ some k ↦ contains (b.segments k) addr | none ↦ false ]

-- the number of the segment that `free` and `realloc_inplace` find: by the tree, else along the list
unfoldable pub find_from : (fuel : ℕ) → Option ℕ → VaBitmap → ℕ → Outcome (Option ℕ)
find_from fuel none b addr = ok none
find_from zero (some k) b addr = out_of_fuel
find_from (suc fuel) (some k) b addr =
    let rest = find_from fuel (b.segments k).next b addr in
    if contains (b.segments k) addr then ok (some k) else rest

unfoldable pub find : VaBitmap → ℕ → Outcome (Option ℕ)
find b addr =
    let list = find_from b.count b.map b addr in
    elim (lookup b addr) [
      | some k ↦ if contains (b.segments k) addr then ok (some k) else list
      | none ↦ list
    ]

unfoldable pub free : VaBitmap → (addr size : ℕ) → Outcome VaBitmap
free b addr size = if addr == 0 then ok b else if size == 0 then ok b else do
  found ← find b addr
  elim found [
    | some k ↦ do s ← Defs.free (b.segments k) addr size; ok (put_segment b k s)
    | none ↦ ok b
  ]

unfoldable pub realloc_inplace :
    VaBitmap → (addr old_size new_size : ℕ) → Outcome (Option ℕ × VaBitmap)
realloc_inplace b addr old_size new_size = do
  found ← find b addr
  elim found [
    | some k ↦ do
      (size, s) ← Defs.realloc_inplace (b.segments k) addr old_size new_size
      ok (size, put_segment b k s)
    | none ↦ ok (none, b)
  ]

-- `seed`, from the address of a range
unfoldable pub seed_of : ℕ → ℕ
seed_of user_va =
    let a = bit_xor user_va (user_va >>> 33) in let b = bit_xor a (a <<< 17) in bit_xor b (b >>> 7)

-- the segment of a new range, its bitmaps of zero bytes
abbrev pub new_segment : (old_head : Option ℕ) → Range → Segment
new_segment old_head range =
    let map_len = (range.size / block_size + 63) / 64 in
    record {
      next = old_head;
      va_start = range.output;
      va_end = range.end;
      map = λ i. 0;
      claim = λ i. 0;
      hint = seed_of range.output % map_len;
      map_len = map_len;
      full = false;
      failed_trys = 0;
    }

module _ (mmap : (call size : ℕ) → Bool) (mmap_at : (call target size : ℕ) → Option ℕ)
    (getrandom : (call : ℕ) → Option ℕ) where
  -- `if self.radix_tree.nodes.l1.is_null() { .. }`
  unfoldable pub ensure_radix : VaBitmap → Outcome Radix
  ensure_radix b = elim b.radix [
    | some r ↦ ok r
    | none ↦
        map_memory (mmap b.reserve.calls) (4096 * 8) >>= (λ page. ok (record { l1 = λ i. none }))
  ]

  -- the rest of `grow`, for a range without a collision: the bitmaps, the segment, its registration
  unfoldable pub add_segment : VaBitmap → Radix → Range → Outcome (Option ℕ × VaBitmap)
  add_segment b r range =
      let map_len = (range.size / block_size + 63) / 64 in
      if mmap b.reserve.calls (map_len * 8) && mmap b.reserve.calls 64
      then (if map_len == 0 then panic else do
        marked ← set_range (mmap b.reserve.calls) range.output range.size (suc b.count) r
        ok (
          some b.count,
          record b {
            map = some b.count;
            radix = some marked;
            count = suc b.count;
            segments = λ i. if i == b.count then new_segment b.map range else b.segments i;
          },
        ))
      else ok (none, b)

  -- `grow` behind the reservation
  abbrev pub after_reserve :
      VaBitmap → Radix → Option Range × Reserve → Outcome (Option ℕ × VaBitmap)
  after_reserve b r (none, reserve) = ok (none, record b { radix = some r; reserve = reserve })
  after_reserve b r (some range, reserve) =
      let c = record b { radix = some r; reserve = reserve } in
      if range.output == 0
      then ok (none, c)
      else if check_collision r range.output range.size
      then ok (none, c)
      else add_segment c r range

  unfoldable pub grow : VaBitmap → Outcome (Option ℕ × VaBitmap)
  grow b = do
    r ← ensure_radix b
    given ← get_va_from_kernel mmap_at getrandom b.reserve
    after_reserve b r given

-- `if needed == 1 { segment.alloc_single() } else { segment.alloc_multi(needed) }`
abbrev pub search : (random needed : ℕ) → Segment → Outcome (Option ℕ × Segment)
search random needed s = if needed == 1 then alloc_single random s else alloc_multi random needed s

-- a failure of a segment: one more try, and full after the third
abbrev pub count_failure : Segment → Segment
count_failure s = record s {
  failed_trys = (s.failed_trys + 1) % 256;
  full = if ltb 2 s.failed_trys then true else s.full;
}

-- `random k` is what `alloc_random()` gives when segment `k` is searched
module _ (random : ℕ → ℕ) (needed : ℕ) where
  -- the search of the segment that served last
  abbrev pub try_at : Option ℕ → VaBitmap → Outcome (Option ℕ × VaBitmap)
  try_at none b = ok (none, b)
  try_at (some k) b = do
    (res, s) ← search (random k) needed (b.segments k)
    ok (res, put_segment b k s)

  unfoldable pub try_latest : VaBitmap → Outcome (Option ℕ × VaBitmap)
  try_latest b = try_at b.latest_segment b

  -- `while !curr.is_null()`
  unfoldable pub walk : (fuel : ℕ) → Option ℕ → VaBitmap → Outcome (Option ℕ × VaBitmap)
  walk fuel none b = ok (none, b)
  walk zero (some k) b = out_of_fuel
  walk (suc fuel) (some k) b = elim (b.segments k).full [
    | true ↦ walk fuel (b.segments k).next b
    | false ↦ do
      (res, s) ← search (random k) needed (b.segments k)
      elim res [
        | some addr ↦ ok (some addr, record (put_segment b k s) { latest_segment = some k })
        | none ↦ walk fuel s.next (put_segment b k (count_failure s))
      ]
  ]

module _ (mmap : (call size : ℕ) → Bool) (mmap_at : (call target size : ℕ) → Option ℕ)
    (getrandom : (call : ℕ) → Option ℕ) where
  -- `while tried < 10`
  unfoldable pub grow_retry : (left : ℕ) → VaBitmap → Outcome (Option ℕ × VaBitmap)
  grow_retry zero b = ok (none, b)
  grow_retry (suc left) b = do
    (made, c) ← grow mmap mmap_at getrandom b
    elim made [ some k ↦ ok (some k, c) | none ↦ grow_retry left c ]

  -- the head of the list, which the first call makes
  abbrev pub first_from : Option ℕ → VaBitmap → Outcome (Option ℕ × VaBitmap)
  first_from (some k) b = ok (some k, b)
  first_from none b = do
    (made, c) ← grow mmap mmap_at getrandom b
    elim made [ some k ↦ ok (some k, c) | none ↦ panic ]

  unfoldable pub first_segment : VaBitmap → Outcome (Option ℕ × VaBitmap)
  first_segment b = first_from b.map b

  -- the end of `alloc`, when no segment of the list has the blocks: the search of the new segment
  abbrev pub in_new :
      (random : ℕ → ℕ) (needed : ℕ) → Option ℕ × VaBitmap → Outcome (Option ℕ × VaBitmap)
  in_new random needed (none, c) = ok (none, c)
  in_new random needed (some k, c) = do
    (res, s) ← search (random k) needed (c.segments k)
    ok (res, record (put_segment c k s) { latest_segment = some k })

  unfoldable pub alloc_grown :
      (random : ℕ → ℕ) (needed : ℕ) → VaBitmap → Outcome (Option ℕ × VaBitmap)
  alloc_grown random needed b = grow_retry 10 b >>= in_new random needed

  abbrev pub behind_walk :
      (random : ℕ → ℕ) (needed : ℕ) → Option ℕ × VaBitmap → Outcome (Option ℕ × VaBitmap)
  behind_walk random needed (some addr, b) = ok (some addr, b)
  behind_walk random needed (none, b) = alloc_grown random needed b

  -- the search of the list, behind the segment that served last
  abbrev pub behind_latest :
      (random : ℕ → ℕ) (needed : ℕ) → Option ℕ × VaBitmap → Outcome (Option ℕ × VaBitmap)
  behind_latest random needed (some addr, b) = ok (some addr, b)
  behind_latest random needed (none, b) = do
    (curr, c) ← first_segment b
    walked ← walk random needed c.count curr c
    behind_walk random needed walked

  unfoldable pub alloc : (random : ℕ → ℕ) (size : ℕ) → VaBitmap → Outcome (Option ℕ × VaBitmap)
  alloc random size b =
      if size == 0
      then ok (none, b)
      else if overflows size
      then panic
      else try_latest random (blocks size) b >>= behind_latest random (blocks size)
