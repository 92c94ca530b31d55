-- ===== src/Va/Segment/View.antt =====
-- A segment seen as the set of its used blocks, and what it is for a segment to be in order.
use oxidalloc.Prelude.{ℕ, ◌*◌, ◌^◌, ◌≤◌, ◌<◌, ◌≡◌, refl, Bool, false, ◌||◌, ◌&&◌, not}
use oxidalloc.Va.Words.Bits.{bit_at, within, AreWords}
use oxidalloc.Va.Segment.Defs.{Segment, max_bits}

-- is block `i` in use?
abbrev pub used : Segment → ℕ → Bool
used s i = bit_at s.map i

-- Between operations no claim is held; the bitmap covers the blocks of the range; the hint is the number
-- of a word of some bitmap of 64-bit addresses.
pub record IsValid (s : Segment) : Type 0 where
  pub map_words : AreWords s.map
  pub claim_words : AreWords s.claim
  pub quiet : (i : ℕ) → bit_at s.claim i ≡ false
  pub covered : max_bits s ≤ 64 * s.map_len
  pub ordered : s.va_start ≤ s.va_end
  pub bounded : s.va_end < 2 ^ 64
  pub hinted : s.hint < 2 ^ 57

-- `s'` is the same range as `s`, in order, and its used blocks are `blocks`.
pub record Becomes (s : Segment) (blocks : ℕ → Bool) (s' : Segment) : Type 0 where
  pub next : s'.next ≡ s.next
  pub va_start : s'.va_start ≡ s.va_start
  pub va_end : s'.va_end ≡ s.va_end
  pub map_len : s'.map_len ≡ s.map_len
  pub valid : IsValid s'
  pub reads : (i : ℕ) → used s' i ≡ blocks i

abbrev pub AllFree : Segment → ℕ → ℕ → Type 0
AllFree s lo hi = (i : ℕ) → lo ≤ i → i < hi → used s i ≡ false

-- the used blocks with those from `lo` below `hi` added, and with them taken away
abbrev pub taking : Segment → ℕ → ℕ → ℕ → Bool
taking s lo hi i = used s i || within lo hi i

abbrev pub releasing : Segment → ℕ → ℕ → ℕ → Bool
releasing s lo hi i = used s i && not (within lo hi i)

pub Becomes-refl : (s : Segment) → IsValid s → Becomes s (used s) s
Becomes-refl s valid = record {
  next = refl;
  va_start = refl;
  va_end = refl;
  map_len = refl;
  valid = valid;
  reads = λ i. refl;
}

-- the hint, the flag and the count of failures are no part of the view
pub Becomes-counters :
    (s s' : Segment) (blocks : ℕ → Bool) (hint failed : ℕ) (full : Bool)
    → hint < 2 ^ 57
    → Becomes s blocks s'
    → Becomes s blocks (record s' { hint = hint; failed_trys = failed; full = full })
Becomes-counters s s' blocks hint failed full small b = record {
  next = b.next;
  va_start = b.va_start;
  va_end = b.va_end;
  map_len = b.map_len;
  valid = record {
    map_words = b.valid.map_words;
    claim_words = b.valid.claim_words;
    quiet = b.valid.quiet;
    covered = b.valid.covered;
    ordered = b.valid.ordered;
    bounded = b.valid.bounded;
    hinted = small;
  };
  reads = b.reads;
}
