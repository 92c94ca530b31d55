-- ===== src/Va/Radix/Ranges.antt =====
-- `set_range` and `check_collision` over the chunks of a range of addresses.
use oxidalloc.Prelude.{
  ℕ, zero, suc, ◌+◌, ◌-◌, ◌*◌, ◌/◌, ◌^◌, ◌≤◌, ◌<◌, ◌≡◌, ◌≢◌, ◌⊎◌, refl, sym, ap, ◌∙◌, subst, arith,
  Bool, true, false, inl, inr, none, some, leb, Bool-cases, Option-cases, ne→==, ℕ_discrete, dec_lt,
  not_leb→lt, leb→le,
}
use oxidalloc.Outcome.{Outcome, ok, panic}
use oxidalloc.Va.Radix.{
  Radix, get, get_segment, set, set_from, set_range, collides_from, check_collision, last_chunk,
  chunk_size, radix_max_chunks, l2_size,
}
use oxidalloc.Va.Radix.Cells.{entry, stored, get-stored, get-other, set_cases}

-- Chunks `c` to `c + n` hold `seg`, and the others what they held.
record Covers (r r' : Radix) (c n seg : ℕ) : Type 0 where
  inside : (k : ℕ) → c ≤ k → k < c + n → k < radix_max_chunks → get r' k ≡ entry seg
  outside : (k : ℕ) → (k < c) ⊎ (c + n ≤ k) → get r' k ≡ get r k

Covers-zero : (r : Radix) (c seg : ℕ) → Covers r r c 0 seg
Covers-zero r c seg = record { inside = λ k p q h. absurd (omega arith); outside = λ k h. refl }

Covers-suc :
    (r r1 r2 : Radix) (c n seg : ℕ)
    → (c < radix_max_chunks → get r1 c ≡ entry seg)
    → ((k : ℕ) → k ≢ c → get r1 k ≡ get r k)
    → Covers r1 r2 (c + 1) n seg
    → Covers r r2 c (suc n) seg
Covers-suc r r1 r2 c n seg here others rest = record {
  inside = λ k p q h. elim (ℕ_discrete k c) [
    | yes now ↦
        rest.outside k (inl (omega arith))
        ∙ ap (get r1) now
        ∙ here (subst (λ t. t < radix_max_chunks) now h)
    | no later ↦ rest.inside k (omega arith) (omega arith) h
  ];
  outside = λ k side. elim side [
    | inl low ↦ rest.outside k (inl (omega arith)) ∙ others k (λ e. omega arith)
    | inr high ↦ rest.outside k (inr (omega arith)) ∙ others k (λ e. omega arith)
  ];
}

module _ (mmap : ℕ → Bool) where
  data Marks (r : Radix) (c n seg : ℕ) : Outcome Radix → Type 0 where
    marked : {r' : Radix} → Covers r r' c n seg → Marks r c n seg (ok r')
    no_page : mmap (l2_size * 8) ≡ false → Marks r c n seg panic

  Marks-suc :
      (r r1 : Radix) (c n seg : ℕ)
      → (c < radix_max_chunks → get r1 c ≡ entry seg)
      → ((k : ℕ) → k ≢ c → get r1 k ≡ get r k)
      → (o : Outcome Radix) → Marks r1 (c + 1) n seg o
      → Marks r c (suc n) seg o
  Marks-suc r r1 c n seg here others o (marked {r'} rest) =
      marked (Covers-suc r r1 r' c n seg here others rest)
  Marks-suc r r1 c n seg here others o (no_page h) = no_page h

  set_beyond : (c seg : ℕ) (r : Radix) → leb radix_max_chunks c ≡ true → set mmap c seg r ≡ ok r
  unfolding set
  set_beyond c seg r h = rw h refl

  set_from-Marks : (n c seg : ℕ) (r : Radix) → Marks r c n seg (set_from mmap n c seg r)
  unfolding set_from
  set_from-Marks zero c seg r = marked (Covers-zero r c seg)
  set_from-Marks (suc n) c seg r = elim (Bool-cases (leb radix_max_chunks c)) [
    | inl out ↦ rw (set_beyond c seg r out) (
        Marks-suc r r c n seg (λ h. let over = leb→le _ _ out in absurd (omega arith)) (λ k h. refl)
          _ (set_from-Marks n (c + 1) seg r))
    | inr within ↦
        let below = not_leb→lt radix_max_chunks c within in
        elim (set_cases r c seg below mmap) [
          | inr (stop, no_room) ↦ rw stop (no_page no_room)
          | inl run ↦ rw run (
              Marks-suc r (stored r c seg below) c n seg (λ h. get-stored r c seg below)
                (λ k h. get-other r c seg below k h) _
                (set_from-Marks n (c + 1) seg (stored r c seg below)))
        ]
  ]

-- The range is clear, or it leaves the tree, or a chunk of it has a segment.
pub data Collides (r : Radix) (start size : ℕ) : Bool → Type 0 where
  clear :
      last_chunk start size < radix_max_chunks
      → ((k : ℕ) → start / chunk_size ≤ k → k ≤ last_chunk start size → get r k ≡ none)
      → Collides r start size false
  beyond : radix_max_chunks ≤ last_chunk start size → Collides r start size true
  taken :
      (k seg : ℕ)
      → start / chunk_size ≤ k
      → k ≤ last_chunk start size
      → get r k ≡ some seg
      → Collides r start size true

collides_free :
    (n c : ℕ) (r : Radix) → get r c ≡ none → collides_from (suc n) c r ≡ collides_from n (c + 1) r
unfolding collides_from
collides_free n c r e = rw (e, collides_from) refl

collides_taken : (n c seg : ℕ) (r : Radix) → get r c ≡ some seg → collides_from (suc n) c r ≡ true
unfolding collides_from
collides_taken n c seg r e = rw (e, collides_from) refl

collides_from-false :
    (n c : ℕ) (r : Radix)
    → collides_from n c r ≡ false
    → (k : ℕ) → c ≤ k
    → k < c + n
    → get r k ≡ none
unfolding collides_from
collides_from-false zero c r h k p q = absurd (omega arith)
collides_from-false (suc n) c r h k p q = elim (Option-cases (get r c)) [
  | inl free ↦ elim (ℕ_discrete k c) [
    | yes now ↦ ap (get r) now ∙ free
    | no later ↦
        collides_from-false n (c + 1) r (sym (collides_free n c r free) ∙ h) k (omega arith)
          (omega arith)
  ]
  | inr (seg, e) ↦ let t = collides_taken n c seg r e in let no : ⊥ = cc in absurd no
]

collides_from-true :
    (n c : ℕ) (r : Radix)
    → collides_from n c r ≡ true
    → (k : ℕ) × (seg : ℕ) × (c ≤ k) × (k < c + n) × (get r k ≡ some seg)
unfolding collides_from
collides_from-true zero c r h = let no : ⊥ = cc in absurd no
collides_from-true (suc n) c r h = elim (Option-cases (get r c)) [
  | inr (seg, e) ↦ (c, seg, omega arith, omega arith, e)
  | inl free ↦
      let (k, seg, p, q, e) = collides_from-true n (c + 1) r (sym (collides_free n c r free) ∙ h) in
      (k, seg, omega arith, omega arith, e)
]

-- `check_collision` is false exactly on a range inside the tree whose chunks have no segment.
pub check_collision-Collides :
    (r : Radix) (start size : ℕ) → Collides r start size (check_collision r start size)
unfolding check_collision
check_collision-Collides r start size =
    let first = start / chunk_size in
    let last = last_chunk start size in
    elim (Bool-cases (leb radix_max_chunks last)) [
      | inl out ↦ rw out (beyond (leb→le _ _ out))
      | inr within ↦ elim (Bool-cases (collides_from (last + 1 - first) first r)) [
        | inr none_there ↦
            rw (within, none_there)
              (clear (not_leb→lt _ _ within) (λ k p q.
                collides_from-false (last + 1 - first) first r none_there k p (omega arith)))
        | inl hit ↦
            let (k, seg, p, q, e) = collides_from-true (last + 1 - first) first r hit in
            rw (within, hit) (taken k seg p (omega arith) e)
      ]
    ]

module _ (mmap : ℕ → Bool) (r : Radix) (start size seg : ℕ) where
  -- Every address of the range belonged to no segment and belongs to `seg`, and an address that
  -- belonged to a segment still does; or the system had no memory for a page of the tree.
  pub data Registers : Outcome Radix → Type 0 where
    registered :
        {r' : Radix}
        → ((addr : ℕ)
            → start ≤ addr
            → addr < start + size
            → (get_segment r addr ≡ none) × (get_segment r' addr ≡ some seg))
        → ((addr other : ℕ) → get_segment r addr ≡ some other → get_segment r' addr ≡ some other)
        → ((addr other : ℕ)
            → get_segment r' addr ≡ some other
            → (get_segment r addr ≡ some other) ⊎ (other ≡ seg))
        → Registers (ok r')
    no_memory : mmap (l2_size * 8) ≡ false → Registers panic

  module _ (some_bytes : 0 < size) (fits : start + size ≤ 2 ^ 64) (not_null : 0 < seg) where
    -- chunks of addresses of the range
    chunk_of :
        (addr : ℕ)
        → start ≤ addr
        → addr < start + size
        → (start / chunk_size ≤ addr / chunk_size) × (addr / chunk_size ≤ last_chunk start size)
    chunk_of addr p q = (omega arith, omega arith)

    Marks-Registers :
        Collides r start size false
        → (o : Outcome Radix)
        → Marks mmap r (start / chunk_size) (last_chunk start size - start / chunk_size + 1) seg o
        → Registers o
    Marks-Registers (clear below free) o (no_page h) = no_memory h
    Marks-Registers (clear below free) o (marked {r'} now) =
        let first = start / chunk_size in
        let last = last_chunk start size in
        let value : entry seg ≡ some seg = let e = ne→== seg 0 (λ q. omega arith) in rw e refl in
        registered
          (λ addr p q.
            let (lo, hi) = chunk_of addr p q in
            (
              free (addr / chunk_size) lo hi,
              now.inside (addr / chunk_size) lo (omega arith) (omega arith) ∙ value,
            ))
          (λ addr other e.
            let k = addr / chunk_size in
            elim (dec_lt k first) [
              | yes low ↦ now.outside k (inl low) ∙ e
              | no from ↦ elim (dec_lt last k) [
                | yes high ↦ now.outside k (inr (omega arith)) ∙ e
                | no upto ↦
                    let nothing = free k (omega arith) (omega arith) in let no : ⊥ = cc in absurd no
              ]
            ])
          (λ addr other e.
            let k = addr / chunk_size in
            elim (dec_lt k first) [
              | yes low ↦ inl (sym (now.outside k (inl low)) ∙ e)
              | no from ↦ elim (dec_lt last k) [
                | yes high ↦ inl (sym (now.outside k (inr (omega arith))) ∙ e)
                | no upto ↦
                    let mine = now.inside k (omega arith) (omega arith) (omega arith) ∙ value in
                    inr cc
              ]
            ])

    -- After `check_collision` has said no, `set_range` gives every address of the range to the segment,
    -- none of which had one, takes no address from another segment, and gives none to a third.
    pub set_range-Registers :
        check_collision r start size ≡ false → Registers (set_range mmap start size seg r)
    unfolding set_range
    set_range-Registers h =
        Marks-Registers (subst (Collides r start size) h (check_collision-Collides r start size)) _
          (set_from-Marks mmap _ _ seg r)
