-- ===== src/Va/Bitmap/Blocks.antt =====
-- What an allocation of src/va/bitmap.rs does to the blocks of the list of segments.
use oxidalloc.Prelude.{
  ltb, ℕ, ◌+◌, ◌*◌, ◌≤◌, ◌<◌, ◌≡◌, refl, sym, ap, ◌∙◌, arith, false, ◌&&◌, ◌||◌, Option, some, ◌==◌,
  ==_iff, ne→==, ℕ_discrete, lt→ltb,
}
use oxidalloc.Outcome.{Returns}
use oxidalloc.Va.Words.Bits.{within}
use oxidalloc.Va.Segment.Defs.{Segment, block_size, max_bits}
use oxidalloc.Va.Segment.View
use oxidalloc.Va.Segment.View.{used, AllFree, Becomes, taking}
use oxidalloc.Va.Segment.Claim.{Takes, Allocates}
use oxidalloc.Va.Segment.Single.Search.{alloc_single-Allocates}
use oxidalloc.Va.Segment.Multi.Search.{alloc_multi-Allocates}
use oxidalloc.Va.Bitmap.{VaBitmap, put_segment, search, count_failure}
use oxidalloc.Va.Bitmap.View.{
  IsValid, Same, Becomes-Same, taken, put-here, put-there, put_segment-IsValid,
}

-- The old segments have their ranges.
pub record SameRanges (b b' : VaBitmap) : Type 0 where
  pub grew : b.count ≤ b'.count
  pub va_start : (j : ℕ) → j < b.count → (b'.segments j).va_start ≡ (b.segments j).va_start
  pub va_end : (j : ℕ) → j < b.count → (b'.segments j).va_end ≡ (b.segments j).va_end

-- `b'` has the same blocks in use
pub record Holds (b b' : VaBitmap) : Type 0 where
  pub ranges : SameRanges b b'
  pub now : (j i : ℕ) → taken b' j i ≡ taken b j i
  pub valid : IsValid b'

-- A run of `needed` blocks of segment `k`, from `first` on and at the address `addr`, was free and is
-- taken, and no other block of any segment changes.
pub record Allotted (b : VaBitmap) (needed addr : ℕ) (b' : VaBitmap) (k first : ℕ) : Type 0 where
  pub inside : k < b'.count
  pub address : addr ≡ (b'.segments k).va_start + first * block_size
  pub room : first + needed ≤ max_bits (b'.segments k)
  pub free : (i : ℕ) → first ≤ i → i < first + needed → taken b k i ≡ false
  pub now : (j i : ℕ) → taken b' j i ≡ (taken b j i || (j == k && within first (first + needed) i))
  pub ranges : SameRanges b b'
  pub valid : IsValid b'

SameRanges-trans : {b c d : VaBitmap} → SameRanges b c → SameRanges c d → SameRanges b d
SameRanges-trans s t = record {
  grew = omega (arith, s.grew, t.grew);
  va_start = λ j h. t.va_start j (omega (arith, s.grew)) ∙ s.va_start j h;
  va_end = λ j h. t.va_end j (omega (arith, s.grew)) ∙ s.va_end j h;
}

pub Holds-Allotted :
    (b c d : VaBitmap) (needed addr k first : ℕ)
    → Holds b c
    → Allotted c needed addr d k first
    → Allotted b needed addr d k first
Holds-Allotted b c d needed addr k first h a = record {
  inside = a.inside;
  address = a.address;
  room = a.room;
  free = λ i lo hi. sym (h.now k i) ∙ a.free i lo hi;
  now = λ j i. a.now j i ∙ ap (λ t. t || (j == k && within first (first + needed) i)) (h.now j i);
  ranges = SameRanges-trans h.ranges a.ranges;
  valid = a.valid;
}

pub Holds-trans : (b c d : VaBitmap) → Holds b c → Holds c d → Holds b d
Holds-trans b c d h k = record {
  ranges = SameRanges-trans h.ranges k.ranges;
  now = λ j i. k.now j i ∙ h.now j i;
  valid = k.valid;
}

abbrev pub NoRun : Segment → ℕ → Type 0
NoRun s needed = (first : ℕ) → first + needed ≤ max_bits s → ¬ AllFree s first (first + needed)

-- none of the first `n` segments that are not marked full has a run of `needed` free blocks
abbrev pub Tried : VaBitmap → (needed n : ℕ) → Type 0
Tried b needed n = (k : ℕ) → k < n → (b.segments k).full ≡ false → NoRun (b.segments k) needed

pub Holds-refl : (b : VaBitmap) → IsValid b → Holds b b
Holds-refl b valid = record {
  ranges = record { grew = omega arith; va_start = λ j h. refl; va_end = λ j h. refl };
  now = λ j i. refl;
  valid = valid;
}

count_failure-IsValid : (s : Segment) → View.IsValid s → View.IsValid (count_failure s)
count_failure-IsValid s v = record {
  map_words = v.map_words;
  claim_words = v.claim_words;
  quiet = v.quiet;
  covered = v.covered;
  ordered = v.ordered;
  bounded = v.bounded;
  hinted = v.hinted;
}

module _ (b : VaBitmap) (k : ℕ) (valid : IsValid b) (inside : k < b.count) where
  abbrev at : Segment
  at = b.segments k

  put-SameRanges :
      (s : Segment) (latest : Option ℕ)
      → Same at s
      → SameRanges b (record (put_segment b k s) { latest_segment = latest })
  put-SameRanges s latest same = record {
    grew = omega arith;
    va_start = λ j h. elim (ℕ_discrete j k) [
      | yes here ↦ rw (here, put-here b k s) same.va_start
      | no other ↦ rw (put-there b k s j other) refl
    ];
    va_end = λ j h. elim (ℕ_discrete j k) [
      | yes here ↦ rw (here, put-here b k s) same.va_end
      | no other ↦ rw (put-there b k s j other) refl
    ];
  }

  -- what a search of segment `k` takes, for the list
  pub Takes-Allotted :
      (needed first addr : ℕ) (s : Segment)
      → Takes at needed first (some addr, s)
      → (latest : Option ℕ) → ((j : ℕ) → latest ≡ some j → j < b.count)
      → Allotted b needed addr (record (put_segment b k s) { latest_segment = latest }) k first
  Takes-Allotted needed first addr s t latest later =
      let same = Becomes-Same at s _ t.becomes in
      record {
        inside = inside;
        address = rw (put-here b k s) (rw t.becomes.va_start (cc t.address));
        room = rw (put-here b k s) (rw (t.becomes.va_start, t.becomes.va_end) t.inside);
        free = λ i lo hi. ground (arith, t.free i lo hi);
        now = λ j i. elim (ℕ_discrete j k) [
          | yes here ↦
              rw (here, put-here b k s) (ground (arith, t.becomes.reads i, lt→ltb k b.count inside))
          | no other ↦ let e = ne→== j k other in rw (put-there b k s j other) (rw e (ground arith))
        ];
        ranges = put-SameRanges s latest same;
        valid = put_segment-IsValid b k s valid inside same latest later;
      }

  -- A change of segment `k` that leaves its blocks alone keeps those of the list.
  pub put-Holds :
      (s : Segment) (latest : Option ℕ)
      → Same at s
      → ((i : ℕ) → used s i ≡ used at i)
      → ((j : ℕ) → latest ≡ some j → j < b.count)
      → Holds b (record (put_segment b k s) { latest_segment = latest })
  put-Holds s latest same blocks later = record {
    ranges = put-SameRanges s latest same;
    now = λ j i. elim (ℕ_discrete j k) [
      | yes here ↦ rw (here, put-here b k s) (ap (λ t. ltb k b.count && t) (blocks i))
      | no other ↦ rw (put-there b k s j other) refl
    ];
    valid = put_segment-IsValid b k s valid inside same latest later;
  }

  -- the count of a failure, for the list
  pub failure-Holds : Holds b (put_segment b k (count_failure at))
  failure-Holds =
      let v = count_failure-IsValid at (valid.segs k inside) in
      let same : Same at (count_failure at) = record {
        next = refl;
        va_start = refl;
        va_end = refl;
        valid = v;
      } in
      put-Holds (count_failure at) b.latest_segment same (λ i. refl) valid.latest

module _ (random needed : ℕ) (some_block : 0 < needed) where
  pub search-Allocates :
      (s : Segment) → View.IsValid s → Returns (search random needed s) (Allocates s needed)
  search-Allocates s valid = elim (ℕ_discrete needed 1) [
    | yes one ↦
        let (r, run, a) = alloc_single-Allocates s valid random in
        (r, rw ((==_iff needed 1).1 one) run, rw one a)
    | no many ↦
        let (r, run, a) = alloc_multi-Allocates s valid needed some_block random in
        (r, rw (ne→== needed 1 many) run, a)
  ]
