-- ===== src/Va/Bitmap/Grow.antt =====
-- `grow` of `VaBitmap`, src/va/bitmap.rs: the reservation, the check of the range, and the new segment.
use oxidalloc.Prelude.{
  ℕ, ◌+◌, ◌*◌, ◌/◌, ◌^◌, ◌≤◌, ◌<◌, ◌≡◌, refl, sym, ap, ◌∙◌, subst, arith, Bool, true, inl, inr,
  Option, none, some, leb, ◌==◌, ==_iff, Bool-cases, Option-cases, if◌then◌else◌,
}
use oxidalloc.Outcome.{Outcome, ok, panic, ◌>>=◌}
use oxidalloc.Va.Radix.{
  Radix, get, get_segment, map_memory, check_collision, chunk_size, radix_max_chunks,
}
use oxidalloc.Va.Radix.Ranges.{Collides, beyond, taken, check_collision-Collides}
use oxidalloc.Va.Reserve.{Reserve, Range, get_va_from_kernel}
use oxidalloc.Va.Reserve.Halving.{
  Reserves, got, nothing, aborted, IsBounded, get_va_from_kernel-Reserves,
}
use oxidalloc.Va.Bitmap.{VaBitmap, pointer, ensure_radix, after_reserve, grow}
use oxidalloc.Va.Bitmap.View.{IsValid}
use oxidalloc.Va.Bitmap.Extend.{
  Extends, Keeps, Gives, Starved, no_root, no_reserve, no_page, Unfit, no_range, null, outside,
  shared, no_words, Grows, grown, failed, stopped, Adds, added, wordless, pageless,
  add_segment-Adds,
}

module _ (mmap : (call size : ℕ) → Bool) (mmap_at : (call target size : ℕ) → Option ℕ)
    (getrandom : (call : ℕ) → Option ℕ) where
  -- with the tree and the state of the reservation of a call of `grow`
  abbrev with_tree : VaBitmap → Radix → Reserve → VaBitmap
  with_tree b r reserve = record b { radix = some r; reserve = reserve }

  with_tree-IsValid :
      (b : VaBitmap) (r : Radix) (reserve : Reserve)
      → IsValid b
      → ((addr : ℕ) → get_segment r addr ≡ pointer b addr)
      → IsBounded reserve
      → IsValid (with_tree b r reserve)
  with_tree-IsValid b r reserve valid tree bounded = record {
    segs = valid.segs;
    chain = valid.chain;
    links = valid.links;
    latest = valid.latest;
    mapped = λ k addr h has. tree addr ∙ valid.mapped k addr h has;
    entries = λ addr p e. valid.entries addr p (sym (tree addr) ∙ e);
    sizes = bounded;
    not_null = valid.not_null;
  }

  with_tree-Extends :
      (b : VaBitmap) (r : Radix) (reserve : Reserve) (b' : VaBitmap)
      → Extends (with_tree b r reserve) b'
      → Extends b b'
  with_tree-Extends b r reserve b' e = record {
    count = e.count;
    old = e.old;
    room = e.room;
    free = e.free;
    latest = e.latest;
    valid = e.valid;
  }

  module _ (b : VaBitmap) (r : Radix) (valid : IsValid b)
      (tree : (addr : ℕ) → get_segment r addr ≡ pointer b addr) where
    keeps : (reserve : Reserve) → IsBounded reserve → Keeps b (with_tree b r reserve)
    keeps reserve bounded = record {
      count = refl;
      old = refl;
      latest = refl;
      tree = tree;
      valid = with_tree-IsValid b r reserve valid tree bounded;
    }

    overlap :
        {range : Range} {reserve : Reserve}
        → Gives mmap mmap_at getrandom b range reserve
        → check_collision r range.output range.size ≡ true
        → Unfit mmap mmap_at getrandom b
    overlap {range} given hit = reason (
        subst (Collides r range.output range.size) hit
          (check_collision-Collides r range.output range.size))
      where
        reason : Collides r range.output range.size true → Unfit mmap mmap_at getrandom b
        reason (beyond out) = outside given out
        reason (taken k p lo hi has) =
            let e : k * chunk_size / chunk_size ≡ k = omega arith in
            shared given (k * chunk_size) p (rw e lo) (rw e hi)
              (sym (tree (k * chunk_size)) ∙ rw e has)

    Adds-Grows :
        {range : Range} {reserve : Reserve}
        → Gives mmap mmap_at getrandom b range reserve
        → IsBounded reserve
        → (o : Outcome (Option ℕ × VaBitmap))
        → Adds mmap mmap_at getrandom (with_tree b r reserve) range o
        → Grows mmap mmap_at getrandom b o
    Adds-Grows {reserve} given bounded _ (added {b'} e) = grown (with_tree-Extends b r reserve b' e)
    Adds-Grows {reserve} given bounded _ (wordless none_left) =
        failed (keeps reserve bounded) (no_words given none_left)
    Adds-Grows given bounded _ (pageless h) = stopped (no_page given h)

    range-Grows :
        (output size : ℕ) (reserve : Reserve)
        → Gives mmap mmap_at getrandom b
            (record { output = output; end = output + size; size = size })
            reserve
        → chunk_size / 2 ≤ size
        → output + size < 2 ^ 64
        → IsBounded reserve
        → Grows mmap mmap_at getrandom b (
            after_reserve mmap mmap_at getrandom b r
              (some (record { output = output; end = output + size; size = size }), reserve))
    range-Grows output size reserve given large small bounded = elim (Bool-cases (output == 0)) [
      | inl nil ↦ rw nil (failed (keeps reserve bounded) (null given ((==_iff output 0).0 nil)))
      | inr not_nil ↦ elim (Bool-cases (check_collision r output size)) [
        | inl collides ↦
            rw (not_nil, collides) (failed (keeps reserve bounded) (overlap given collides))
        | inr clear ↦
            rw (not_nil, clear)
              (Adds-Grows given bounded _ (
                add_segment-Adds mmap mmap_at getrandom (with_tree b r reserve) r _
                  (with_tree-IsValid b r reserve valid tree bounded) (λ addr. refl) large refl small
                  (ground (arith, not_nil)) clear))
      ]
    ]

    Reserves-Grows :
        (o : Outcome (Option Range × Reserve))
        → get_va_from_kernel mmap_at getrandom b.reserve ≡ o
        → Reserves mmap_at getrandom b.reserve o
        → Grows mmap mmap_at getrandom b (o >>= after_reserve mmap mmap_at getrandom b r)
    Reserves-Grows _ run (got {size} {output} {s} asks answer large fits bounded) =
        range-Grows output size _ run large fits bounded
    Reserves-Grows _ run (nothing {s} why bounded) = failed (keeps s bounded) (no_range why)
    Reserves-Grows _ run (aborted why) = stopped (no_reserve why)

    grow_rest : Grows mmap mmap_at getrandom b (
        get_va_from_kernel mmap_at getrandom b.reserve >>= after_reserve mmap mmap_at getrandom b r)
    grow_rest =
        Reserves-Grows _ refl (get_va_from_kernel-Reserves mmap_at getrandom b.reserve valid.sizes)

  -- the tree that `grow` starts from, the same as before or empty
  data Ensures (b : VaBitmap) : Outcome Radix → Type 0 where
    rooted : {r : Radix} → ((addr : ℕ) → get_segment r addr ≡ pointer b addr) → Ensures b (ok r)
    unrooted : Starved mmap mmap_at getrandom b → Ensures b panic

  empty_lem :
      (b : VaBitmap) (addr : ℕ)
      → b.radix ≡ none
      → get_segment (record { l1 = λ i. none }) addr ≡ pointer b addr
  unfolding get
  empty_lem b addr unset = elim (Bool-cases (leb radix_max_chunks (addr / chunk_size))) [
    | inl out ↦ rw (out, unset) refl
    | inr within ↦ rw (within, unset) refl
  ]

  module _ (b : VaBitmap) where
    has_root : {r : Radix} → b.radix ≡ some r → ensure_radix mmap mmap_at getrandom b ≡ ok r
    unfolding ensure_radix
    has_root e = rw e refl

    first_root :
        b.radix ≡ none
        → ensure_radix mmap mmap_at getrandom b
          ≡ (if mmap b.reserve.calls (4096 * 8) then ok (record { l1 = λ i. none }) else panic)
    unfolding ensure_radix map_memory
    first_root unset = elim (Bool-cases (mmap b.reserve.calls (4096 * 8))) [
      | inl given ↦ rw (unset, given) refl
      | inr not_given ↦ rw (unset, not_given) refl
    ]

    ensure_radix-Ensures : Ensures b (ensure_radix mmap mmap_at getrandom b)
    ensure_radix-Ensures = elim (Option-cases b.radix) [
      | inr (r, e) ↦
          rw (has_root e) (
            rooted (λ addr. ap (λ t. elim t [ none ↦ none | some q ↦ get_segment q addr ]) (sym e)))
      | inl unset ↦ elim (Bool-cases (mmap b.reserve.calls (4096 * 8))) [
        | inl given ↦ rw (first_root unset, given) (rooted (λ addr. empty_lem b addr unset))
        | inr not_given ↦ rw (first_root unset, not_given) (unrooted (no_root unset not_given))
      ]
    ]

  Ensures-Grows :
      (b : VaBitmap) (o : Outcome Radix)
      → IsValid b
      → Ensures b o
      → Grows mmap mmap_at getrandom b (
          o >>= (λ r.
            get_va_from_kernel mmap_at getrandom b.reserve
            >>= after_reserve mmap mmap_at getrandom b r))
  Ensures-Grows b _ valid (rooted {r} tree) = grow_rest b r valid tree
  Ensures-Grows b _ valid (unrooted why) = stopped why

  -- On a list of segments in order, `grow` adds at its head a segment that is free and has at least
  -- 2 GiB and keeps the list in order. Or it keeps the segments and gives none; then the system has
  -- refused every size that this run asked for, or the range that it gave in this run is null,
  -- leaves the tree or shares a chunk with a segment, or there is no memory for its bitmaps. Or it
  -- aborts; then there is no memory for the tree or a page of it, or the reservation of this run
  -- aborts.
  pub grow-Grows :
      (b : VaBitmap) → IsValid b → Grows mmap mmap_at getrandom b (grow mmap mmap_at getrandom b)
  unfolding grow
  grow-Grows b valid = Ensures-Grows b _ valid (ensure_radix-Ensures b)
