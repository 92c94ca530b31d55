-- ===== src/Va/Bitmap/Extend.antt =====
-- The end of `grow` in src/va/bitmap.rs: the new segment, its registration, and its place in the list.
use oxidalloc.Prelude.{
  ℕ, suc, ◌+◌, ◌*◌, ◌/◌, ◌%◌, ◌^◌, ◌≤◌, ◌<◌, ◌≡◌, ◌≢◌, refl, sym, ◌∙◌, arith, Bool, true, false,
  ◌&&◌, inl, inr, Option, none, some, ◌==◌, ==_iff, ne→==, Bool-cases, ℕ_discrete, if◌then◌else◌,
}
use native.Mathlib.Nat.{mod-lt}
use oxidalloc.Prelude.Word.{bit_zero}
use oxidalloc.Outcome.{Outcome, ok, panic, ◌>>=◌}
use oxidalloc.Va.Words.Bits.{bit_at, AreWords}
use oxidalloc.Va.Radix.{
  Radix, get_segment, check_collision, chunk_size, last_chunk, radix_max_chunks, l2_size,
}
use oxidalloc.Va.Radix.Ranges.{Registers, registered, no_memory, set_range-Registers}
use oxidalloc.Va.Reserve.{Reserve, Range, get_va_from_kernel}
use oxidalloc.Va.Reserve.Halving.{Aborts, Refused}
use oxidalloc.Va.Segment.Defs.{Segment, block_size, max_bits}
use oxidalloc.Va.Segment.View
use oxidalloc.Va.Segment.View.{used}
use oxidalloc.Va.Bitmap.{VaBitmap, pointer, seed_of, new_segment, add_segment}
use oxidalloc.Va.Bitmap.View.{IsValid}

-- the words of the bitmaps of a range
abbrev pub words_of : Range → ℕ
words_of range = (range.size / block_size + 63) / 64

zero_words : AreWords (λ i. 0)
zero_words = λ i. omega arith

-- a new segment is free
zero_bits : (i : ℕ) → bit_at (λ i. 0) i ≡ false
zero_bits i = bit_zero (i % 64)

module _ (old_head : Option ℕ) (range : Range) (large : chunk_size / 2 ≤ range.size)
    (end : range.end ≡ range.output + range.size) (word : range.end < 2 ^ 64) where
  some_words : 0 < words_of range
  some_words = omega arith

  new_segment-IsValid : View.IsValid (new_segment old_head range)
  new_segment-IsValid = record {
    map_words = zero_words;
    claim_words = zero_words;
    quiet = zero_bits;
    covered = omega arith;
    ordered = omega arith;
    bounded = word;
    hinted = omega (arith, mod-lt (seed_of range.output) some_words, some_words);
  }

  new_segment_large : 524288 ≤ max_bits (new_segment old_head range)
  new_segment_large = omega arith

-- `b'` has one segment more, which is free, has at least 2 GiB and is the head; the others are as they
-- were.
pub record Extends (b b' : VaBitmap) : Type 0 where
  pub count : b'.count ≡ suc b.count
  pub old : (j : ℕ) → j < b.count → b'.segments j ≡ b.segments j
  pub room : 524288 ≤ max_bits (b'.segments b.count)
  pub free : (i : ℕ) → used (b'.segments b.count) i ≡ false
  pub latest : b'.latest_segment ≡ b.latest_segment
  pub valid : IsValid b'

-- `b'` has the same segments
pub record Keeps (b b' : VaBitmap) : Type 0 where
  pub count : b'.count ≡ b.count
  pub old : b'.segments ≡ b.segments
  pub latest : b'.latest_segment ≡ b.latest_segment
  pub tree : (addr : ℕ) → pointer b' addr ≡ pointer b addr
  pub valid : IsValid b'

module _ (mmap : (call size : ℕ) → Bool) (mmap_at : (call target size : ℕ) → Option ℕ)
    (getrandom : (call : ℕ) → Option ℕ) where
  -- the range that the reservation of a run of `grow` gives, and the state behind it
  abbrev pub Gives : VaBitmap → Range → Reserve → Type 0
  Gives b range reserve = get_va_from_kernel mmap_at getrandom b.reserve ≡ ok (some range, reserve)

  -- why a run of `grow` aborts: the system has no memory for the tree or for a page of it, or the
  -- reservation aborts
  pub data Starved (b : VaBitmap) : Type 0 where
    no_root : b.radix ≡ none → mmap b.reserve.calls (4096 * 8) ≡ false → Starved b
    no_reserve : Aborts mmap_at getrandom b.reserve → Starved b
    no_page :
        {range : Range} {reserve : Reserve}
        → Gives b range reserve
        → mmap reserve.calls (l2_size * 8) ≡ false
        → Starved b

  -- why a run of `grow` gives no segment: the system refused every size, or the range that it gave is
  -- null, leaves the tree or has a chunk in common with a segment, or there is no memory for its
  -- bitmaps
  pub data Unfit (b : VaBitmap) : Type 0 where
    no_range : Refused mmap_at getrandom b.reserve true → Unfit b
    null : {range : Range} {reserve : Reserve} → Gives b range reserve → range.output ≡ 0 → Unfit b
    outside :
        {range : Range} {reserve : Reserve}
        → Gives b range reserve
        → radix_max_chunks ≤ last_chunk range.output range.size
        → Unfit b
    shared :
        {range : Range} {reserve : Reserve}
        → Gives b range reserve
        → (addr p : ℕ) → range.output / chunk_size ≤ addr / chunk_size
        → addr / chunk_size ≤ last_chunk range.output range.size
        → pointer b addr ≡ some p
        → Unfit b
    no_words :
        {range : Range} {reserve : Reserve}
        → Gives b range reserve
        → (mmap reserve.calls (words_of range * 8) && mmap reserve.calls 64) ≡ false
        → Unfit b

  pub data Grows (b : VaBitmap) : Outcome (Option ℕ × VaBitmap) → Type 0 where
    grown : {b' : VaBitmap} → Extends b b' → Grows b (ok (some b.count, b'))
    failed : {b' : VaBitmap} → Keeps b b' → Unfit b → Grows b (ok (none, b'))
    stopped : Starved b → Grows b panic

  -- what `add_segment` gives
  pub data Adds (b : VaBitmap) (range : Range) : Outcome (Option ℕ × VaBitmap) → Type 0 where
    added : {b' : VaBitmap} → Extends b b' → Adds b range (ok (some b.count, b'))
    wordless :
        (mmap b.reserve.calls (words_of range * 8) && mmap b.reserve.calls 64) ≡ false
        → Adds b range (ok (none, b))
    pageless : mmap b.reserve.calls (l2_size * 8) ≡ false → Adds b range panic

  module _ (b : VaBitmap) (r : Radix) (range : Range) (valid : IsValid b)
      (tree : (addr : ℕ) → get_segment r addr ≡ pointer b addr)
      (large : chunk_size / 2 ≤ range.size) (end : range.end ≡ range.output + range.size)
      (word : range.end < 2 ^ 64) (some_addr : 0 < range.output) where
    abbrev made : Segment
    made = new_segment b.map range

    abbrev extended : Radix → VaBitmap
    extended marked = record b {
      map = some b.count;
      radix = some marked;
      count = suc b.count;
      segments = λ i. if i == b.count then made else b.segments i;
    }

    here : (marked : Radix) → (extended marked).segments b.count ≡ made
    here marked = let e = (==_iff b.count b.count).1 refl in rw e refl

    there : (marked : Radix) (j : ℕ) → j ≢ b.count → (extended marked).segments j ≡ b.segments j
    there marked j other = let e = ne→== j b.count other in rw e refl

    extended-Extends :
        (marked : Radix)
        → Registers
            (λ size. mmap b.reserve.calls size)
            r
            range.output
            range.size
            (suc b.count)
            (ok marked)
        → Extends b (extended marked)
    extended-Extends marked (registered range_of kept only) = record {
      count = refl;
      old = λ j h. there marked j (λ e. omega arith);
      room = rw (here marked) (new_segment_large b.map range large end word);
      free = λ i. rw (here marked) (zero_bits i);
      latest = refl;
      valid = record {
        segs = λ k h. elim (ℕ_discrete k b.count) [
          | yes now ↦ rw (now, here marked) (new_segment-IsValid b.map range large end word)
          | no before ↦ rw (there marked k before) (valid.segs k (omega arith))
        ];
        chain = refl;
        links = λ k h. elim (ℕ_discrete k b.count) [
          | yes now ↦ rw (now, here marked) valid.chain
          | no before ↦ rw (there marked k before) (valid.links k (omega arith))
        ];
        latest = λ k e. let before = valid.latest k e in omega arith;
        mapped = λ k addr h. elim (ℕ_discrete k b.count) [
          | yes now ↦ rw (now, here marked) (λ has. (range_of addr (ground arith) (ground arith)).1)
          | no before ↦
              rw (there marked k before)
                (λ has. kept addr (suc k) (tree addr ∙ valid.mapped k addr (omega arith) has))
        ];
        entries = λ addr p e. elim (only addr p e) [
          | inl old ↦
              let (k, h, same) = valid.entries addr p (sym (tree addr) ∙ old) in
              (k, omega arith, same)
          | inr new ↦ (b.count, omega arith, new)
        ];
        sizes = valid.sizes;
        not_null = λ k h. elim (ℕ_discrete k b.count) [
          | yes now ↦ rw (now, here marked) some_addr
          | no before ↦ rw (there marked k before) (valid.not_null k (omega arith))
        ];
      };
    }

    Registers-Adds :
        (o : Outcome Radix)
        → Registers (λ size. mmap b.reserve.calls size) r range.output range.size (suc b.count) o
        → Adds b range (o >>= (λ marked. ok (some b.count, extended marked)))
    Registers-Adds _ (no_memory h) = pageless h
    Registers-Adds (ok marked) (registered a k o) =
        added (extended-Extends marked (registered a k o))

    pub add_segment-Adds :
        check_collision r range.output range.size ≡ false
        → Adds b range (add_segment mmap mmap_at getrandom b r range)
    unfolding add_segment
    add_segment-Adds clear =
        let map_len = words_of range in
        let some_words : (map_len == 0) ≡ false = ne→== map_len 0 (λ e. omega arith) in
        elim (Bool-cases (mmap b.reserve.calls (map_len * 8) && mmap b.reserve.calls 64)) [
          | inr none_left ↦ rw none_left (wordless none_left)
          | inl given ↦
              rw (given, some_words)
                (Registers-Adds _ (
                  set_range-Registers (λ size. mmap b.reserve.calls size) r range.output range.size
                    (suc b.count) (omega arith) (omega arith) (omega arith) clear))
        ]
