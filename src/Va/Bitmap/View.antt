-- ===== src/Va/Bitmap/View.antt =====
-- What it is for the list of segments of src/va/bitmap.rs to be in order, and `is_ours`.
use oxidalloc.Prelude.{
  ℕ, zero, suc, ◌-◌, ◌≤◌, ◌<◌, ◌≡◌, ◌≢◌, refl, sym, ap, ◌∙◌, arith, Bool, true, false, ◌&&◌, inl,
  inr, Option, none, some, ltb, ==_iff, ne→==, Bool-cases, Option-cases, ℕ_discrete,
}
use oxidalloc.Outcome.{ok, Returns}
use oxidalloc.Va.Segment.Defs.{Segment}
use oxidalloc.Va.Segment.View
use oxidalloc.Va.Segment.View.{used, Becomes}
use oxidalloc.Va.Reserve.Halving.{IsBounded}
use oxidalloc.Va.Bitmap.{VaBitmap, put_segment, contains, pointer, is_ours, find_from, find}

-- the number before, as a pointer
abbrev pub link : ℕ → Option ℕ
link zero = none
link (suc k) = some k

-- The segments are in order and linked from the newest to the oldest, and the tree gives exactly the
-- segment that has an address.
pub record IsValid (b : VaBitmap) : Type 0 where
  pub segs : (k : ℕ) → k < b.count → View.IsValid (b.segments k)
  pub chain : b.map ≡ link b.count
  pub links : (k : ℕ) → k < b.count → (b.segments k).next ≡ link k
  pub latest : (k : ℕ) → b.latest_segment ≡ some k → k < b.count
  pub mapped :
      (k addr : ℕ)
      → k < b.count
      → contains (b.segments k) addr ≡ true
      → pointer b addr ≡ some (suc k)
  pub entries : (addr p : ℕ) → pointer b addr ≡ some p → (k : ℕ) × (k < b.count) × (p ≡ suc k)
  pub sizes : IsBounded b.reserve
  pub not_null : (k : ℕ) → k < b.count → 0 < (b.segments k).va_start

-- is block `i` of segment `k` in use?
abbrev pub taken : VaBitmap → (k i : ℕ) → Bool
taken b k i = ltb k b.count && used (b.segments k) i

-- `s'` is a segment of the same range at the same place of the list
pub record Same (s s' : Segment) : Type 0 where
  pub next : s'.next ≡ s.next
  pub va_start : s'.va_start ≡ s.va_start
  pub va_end : s'.va_end ≡ s.va_end
  pub valid : View.IsValid s'

pub Becomes-Same : (s s' : Segment) (blocks : ℕ → Bool) → Becomes s blocks s' → Same s s'
Becomes-Same s s' blocks b = record {
  next = b.next;
  va_start = b.va_start;
  va_end = b.va_end;
  valid = b.valid;
}

module _ (b : VaBitmap) (k : ℕ) (s : Segment) where
  pub put-here : (put_segment b k s).segments k ≡ s
  put-here = let e = (==_iff k k).1 refl in rw e refl

  pub put-there : (j : ℕ) → j ≢ k → (put_segment b k s).segments j ≡ b.segments j
  put-there j other = let e = ne→== j k other in rw e refl

  -- A segment of the list may change within its range, and become the one that served last.
  pub put_segment-IsValid :
      IsValid b
      → k < b.count
      → Same (b.segments k) s
      → (latest : Option ℕ) → ((j : ℕ) → latest ≡ some j → j < b.count)
      → IsValid (record (put_segment b k s) { latest_segment = latest })
  put_segment-IsValid valid inside same latest later = record {
    segs = λ j h. elim (ℕ_discrete j k) [
      | yes here ↦ rw (here, put-here) same.valid
      | no other ↦ rw (put-there j other) (valid.segs j h)
    ];
    chain = valid.chain;
    links = λ j h. elim (ℕ_discrete j k) [
      | yes here ↦ rw (here, put-here) (same.next ∙ valid.links k inside)
      | no other ↦ rw (put-there j other) (valid.links j h)
    ];
    latest = later;
    mapped = λ j addr h. elim (ℕ_discrete j k) [
      | yes here ↦
          rw (here, put-here)
            (rw (same.va_start, same.va_end) (λ has. valid.mapped k addr inside has))
      | no other ↦ rw (put-there j other) (λ has. valid.mapped j addr h has)
    ];
    entries = valid.entries;
    sizes = valid.sizes;
    not_null = λ j h. elim (ℕ_discrete j k) [
      | yes here ↦ rw (here, put-here) (rw same.va_start (valid.not_null k inside))
      | no other ↦ rw (put-there j other) (valid.not_null j h)
    ];
  }

-- which segment has an address
pub data Finds (b : VaBitmap) (addr : ℕ) : Option ℕ → Type 0 where
  hit : {k : ℕ} → k < b.count → contains (b.segments k) addr ≡ true → Finds b addr (some k)
  miss : ((k : ℕ) → k < b.count → contains (b.segments k) addr ≡ false) → Finds b addr none

module _ (b : VaBitmap) (valid : IsValid b) (addr : ℕ) where
  -- along the list from segment `n` down
  find_from-Finds :
      (n : ℕ)
      → n ≤ b.count
      → ((k : ℕ) → n ≤ k → k < b.count → contains (b.segments k) addr ≡ false)
      → Returns (find_from n (link n) b addr) (Finds b addr)
  unfolding find_from
  find_from-Finds zero h above = (none, refl, miss (λ k p. above k (omega arith) p))
  find_from-Finds (suc n) h above = elim (Bool-cases (contains (b.segments n) addr)) [
    | inl has ↦ (some n, rw has refl, hit (omega arith) has)
    | inr not_here ↦
        let (r, run, finds) = find_from-Finds n (omega arith) (λ k p q. elim (ℕ_discrete k n) [
          | yes now ↦ rw now not_here
          | no higher ↦ above k (omega arith) q
        ]) in
        (r, rw (not_here, valid.links n (omega arith)) run, finds)
  ]

  -- A look in the tree and along the list finds the segment that has the address, if there is one.
  pub find-Finds : Returns (find b addr) (Finds b addr)
  unfolding find
  find-Finds =
      let (r, run, finds) = find_from-Finds b.count (omega arith) (λ k p q. absurd (omega arith)) in
      let list : find_from b.count b.map b addr ≡ ok r =
        ap (λ m. find_from b.count m b addr) valid.chain ∙ run in
      elim (Option-cases (pointer b addr)) [
        | inl no_entry ↦ (r, rw (no_entry, find) list, finds)
        | inr (p, e) ↦
            let (k, h, same) = valid.entries addr p e in
            elim (Bool-cases (contains (b.segments (p - 1)) addr)) [
              | inl has ↦
                  let number : p - 1 ≡ k = omega arith in
                  (some (p - 1), rw (e, find, has) refl, hit (omega arith) has)
              | inr not_there ↦ (r, rw (e, find, not_there) list, finds)
            ]
      ]

  ours_entry :
      {p : ℕ} → pointer b addr ≡ some p → is_ours b addr ≡ contains (b.segments (p - 1)) addr
  unfolding is_ours
  ours_entry e = rw (e, is_ours) refl

  mapped_ours :
      (k : ℕ) → pointer b addr ≡ some (suc k) → is_ours b addr ≡ contains (b.segments k) addr
  mapped_ours k e = let number : suc k - 1 ≡ k = omega arith in rw number at (ours_entry e)

  no_entry_lem : pointer b addr ≡ none → is_ours b addr ≡ false
  unfolding is_ours
  no_entry_lem e = rw (e, is_ours) refl

  -- `is_ours` is true exactly on the addresses of the segments.
  pub is_ours_lem :
      (is_ours b addr ≡ true
        → (k : ℕ) × (k < b.count)
          × ((b.segments k).va_start ≤ addr)
          × (addr < (b.segments k).va_end))
      × ((k : ℕ)
          → k < b.count
          → (b.segments k).va_start ≤ addr
          → addr < (b.segments k).va_end
          → is_ours b addr ≡ true)
  is_ours_lem = (
    λ ours. elim (Option-cases (pointer b addr)) [
      | inl no_entry ↦ let no = no_entry_lem no_entry in cc
      | inr (p, e) ↦
          let (k, h, same) = valid.entries addr p e in
          let has : contains (b.segments (p - 1)) addr ≡ true = sym (ours_entry e) ∙ ours in
          (p - 1, omega arith, ground (arith, has), ground (arith, has))
    ],
    λ k h lo hi.
        let has : contains (b.segments k) addr ≡ true = ground arith in
        mapped_ours k (valid.mapped k addr h has) ∙ has,
  )
