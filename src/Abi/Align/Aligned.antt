-- ===== src/Abi/Align/Aligned.antt =====
-- `posix_memalign` of src/abi/align.rs, and the search of `free` for the pointer behind an aligned one.
use oxidalloc.Prelude.{
  ℕ, zero, suc, ◌+◌, ◌-◌, ◌%◌, ◌^◌, ◌≤◌, ◌<◌, ◌≡◌, ◌≢◌, refl, sym, ap, ◌∙◌, subst, arith, Bool,
  true, false, ◌⊎◌, inl, inr, Option, none, some, ltb, ◌==◌, ==_iff, ne→==, ltb→lt, Bool-cases,
  Option-cases, if◌then◌else◌, min, ℕ_discrete,
}
use oxidalloc.Prelude.Word.{two_pow_pos}
use oxidalloc.Outcome.{Returns}
use oxidalloc.Abi.Calloc.{actual_size}
use oxidalloc.Va.Align.{align_to, align_to_lem}
use oxidalloc.Abi.Align.{
  Memory, offset_size, tag_size, align_tag, power_below, Status, done, einval, nomem, aligned_at,
  again, malloc_twice, place, to_place, posix_memalign, raw_of, malloc_usable_size,
}

abbrev pub IsPower : ℕ → Type 0
IsPower a = (k : ℕ) × (k < 64) × (a ≡ 2 ^ k)

power_below-IsPower : (n a : ℕ) → n ≤ 64 → power_below n a ≡ true → IsPower a
unfolding power_below
power_below-IsPower zero a h e = let no : ⊥ = cc in absurd no
power_below-IsPower (suc n) a h e = elim (Bool-cases (a == 2 ^ n)) [
  | inl same ↦ (n, omega arith, (==_iff a (2 ^ n)).0 same)
  | inr other ↦ power_below-IsPower n a (omega arith) (rw other at e)
]

power_below-true : (n k a : ℕ) → k < n → a ≡ 2 ^ k → power_below n a ≡ true
unfolding power_below
power_below-true zero k a h e = absurd (omega arith)
power_below-true (suc n) k a h e = elim (ℕ_discrete k n) [
  | yes here ↦
      let t : (a == 2 ^ n) ≡ true = (==_iff a (2 ^ n)).1 (e ∙ ap (λ (j : ℕ). 2 ^ j) here) in
      rw t refl
  | no less ↦ let t = power_below-true n k a (omega arith) e in ground arith
]

-- The bytes are aligned and leave room for the tag, and are less than the alignment further on.
aligned_at_lem :
    (k raw : ℕ)
    → k < 64
    → raw + tag_size + 2 ^ k ≤ 2 ^ 64
    → let r = aligned_at raw (2 ^ k) in
      (r % 2 ^ k ≡ 0) × (raw + tag_size ≤ r) × (r < raw + tag_size + 2 ^ k)
unfolding aligned_at align_to
aligned_at_lem k raw small fits =
    let pos = two_pow_pos k in
    let start : min (raw + tag_size) (2 ^ 64 - 1) ≡ raw + tag_size = omega arith in
    let e : raw + tag_size + 2 ^ k - 1 ≡ raw + tag_size + (2 ^ k - 1) = omega arith in
    rw start (rw e (align_to_lem k (raw + tag_size) small fits))

module _ (malloc : (call size : ℕ) → Option ℕ) (memptr_null : Bool) (alignment size : ℕ)
    (m : Memory) where
  abbrev total : ℕ
  total = size + alignment + tag_size

  -- What `posix_memalign` gives: an error with its reason, or aligned bytes inside an allocation, with
  -- the tag and the original pointer in the two words in front of them.
  pub data Places : Status × Option ℕ × Memory → Type 0 where
    invalid :
        (memptr_null ≡ true) ⊎ (alignment < 8) ⊎ (¬ IsPower alignment) → Places (einval, none, m)
    no_memory :
        (2 ^ 64 ≤ total) ⊎ ((malloc 0 total ≡ none) × (malloc 1 total ≡ none))
        → Places (nomem, none, m)
    placed :
        {m' : Memory} {ptr : ℕ} (call raw : ℕ)
        → malloc call total ≡ some raw
        → ptr % alignment ≡ 0
        → raw + tag_size ≤ ptr
        → ptr + size < raw + total
        → m' (ptr - tag_size) ≡ align_tag
        → m' (ptr - offset_size) ≡ raw
        → ((p : ℕ) → p ≢ ptr - tag_size → p ≢ ptr - offset_size → m' p ≡ m p)
        → Places (done, some ptr, m')

  module _ (fits : (call size raw : ℕ) → malloc call size ≡ some raw → raw + size ≤ 2 ^ 64) where
    place-Places :
        (call raw : ℕ)
        → IsPower alignment
        → malloc call total ≡ some raw
        → Places (place malloc alignment m (some raw))
    place-Places call raw (k, small, power) given =
        let room = fits call total raw given in
        let (whole, lo, hi) =
          subst
            (λ a.
              let r = aligned_at raw a in
              (r % a ≡ 0) × (raw + tag_size ≤ r) × (r < raw + tag_size + a))
            (sym power) (aligned_at_lem k raw small (omega arith)) in
        placed call raw given whole lo (omega arith) (ground arith) (ground arith)
          (λ p not_tag not_raw.
            let a = ne→== p (aligned_at raw alignment - tag_size) not_tag in
            let b = ne→== p (aligned_at raw alignment - offset_size) not_raw in rw (b, a) refl)

    -- one more try
    twice-Places : IsPower alignment → Places (place malloc alignment m (malloc_twice malloc total))
    twice-Places power = elim (Option-cases (malloc 0 total)) [
      | inr (raw, given) ↦
          subst (λ t. Places (place malloc alignment m t)) (sym (ap (again malloc total) given))
            (place-Places 0 raw power given)
      | inl first ↦ elim (Option-cases (malloc 1 total)) [
        | inr (raw, given) ↦
            subst (λ t. Places (place malloc alignment m t))
              (sym (ap (again malloc total) first ∙ given)) (place-Places 1 raw power given)
        | inl second ↦
            subst (λ t. Places (place malloc alignment m t))
              (sym (ap (again malloc total) first ∙ second)) (no_memory (inr (first, second)))
      ]
    ]

    to_place-Places : Places (to_place malloc alignment size m)
    to_place-Places = elim (Bool-cases (ltb alignment 8)) [
      | inl low ↦ rw low (invalid (inr (inl (ltb→lt _ _ low))))
      | inr high ↦ elim (Bool-cases (power_below 64 alignment)) [
        | inr other ↦
            rw (high, other)
              (invalid (
                inr (
                  inr (λ power.
                    let t = power_below-true 64 power.0 alignment power.1 power.2 in cc))))
        | inl is_power ↦
            let power = power_below-IsPower 64 alignment (omega arith) is_power in
            elim (Bool-cases (ltb (size + alignment) (2 ^ 64))) [
              | inr over ↦ rw (high, is_power, over) (no_memory (inl (ground arith)))
              | inl fit ↦ elim (Bool-cases (ltb (size + alignment + tag_size) (2 ^ 64))) [
                | inr over ↦ rw (high, is_power, fit, over) (no_memory (inl (ground arith)))
                | inl in_word ↦ rw (high, is_power, fit, in_word) (twice-Places power)
              ]
            ]
      ]
    ]

    -- `posix_memalign` refuses a null place, an alignment below 8 and one that is no power of two;
    -- it says that there is no memory where the sizes leave 64 bits or `malloc` fails twice; and else
    -- it gives an aligned pointer whose bytes lie in the allocation, in front of which stand the tag
    -- and the allocation's own pointer, and changes no other word.
    pub posix_memalign-Places : Places (posix_memalign malloc memptr_null alignment size m)
    unfolding posix_memalign
    posix_memalign-Places =
        let choice =
          λ (t : Bool). if t then (einval, none, m) else to_place malloc alignment size m in
        elim (Bool-cases memptr_null) [
          | inl null ↦ subst Places (sym (ap choice null)) (invalid (inl null))
          | inr some_place ↦ subst Places (sym (ap choice some_place)) to_place-Places
        ]

    module _ (is_ours : ℕ → Bool) (fallback : ℕ → ℕ) (class_at : (header : ℕ) → ℕ)
        (big_size : (header : ℕ) → Option ℕ) where
      -- the pointer behind an aligned one, and the bytes that are left behind it
      pub record Recovers (m' : Memory) (ptr : ℕ) : Type 0 where
        pub call : ℕ
        pub raw : ℕ
        pub given : malloc call total ≡ some raw
        pub back : raw_of is_ours m' ptr ≡ raw
        pub room :
            Returns (malloc_usable_size is_ours fallback class_at big_size m' ptr) (λ n. size ≤ n)

      module _ (ours : (call raw : ℕ) → malloc call total ≡ some raw → is_ours raw ≡ true)
          (held : (call raw : ℕ)
            → malloc call total ≡ some raw
            → Returns (actual_size class_at big_size raw) (λ n. total ≤ n))
          (m' : Memory) (ptr : ℕ) (mine : is_ours ptr ≡ true) where
        raw_back :
            (raw : ℕ)
            → raw + tag_size ≤ ptr
            → ptr < 2 ^ 64
            → m' (ptr - tag_size) ≡ align_tag
            → m' (ptr - offset_size) ≡ raw
            → is_ours raw ≡ true
            → raw_of is_ours m' ptr ≡ raw
        unfolding raw_of
        raw_back raw lo hi tag kept own =
            let tag_loc : (ptr + 2 ^ 64 - tag_size) % 2 ^ 64 ≡ ptr - tag_size = omega arith in
            let raw_loc : (ptr + 2 ^ 64 - offset_size) % 2 ^ 64 ≡ ptr - offset_size = omega arith in
            rw (tag_loc, raw_loc, tag, kept, own) refl

        usable_room :
            (call raw : ℕ)
            → malloc call total ≡ some raw
            → raw_of is_ours m' ptr ≡ raw
            → raw + tag_size ≤ ptr
            → ptr < 2 ^ 64
            → ptr + size < raw + total
            → Returns (malloc_usable_size is_ours fallback class_at big_size m' ptr) (λ n. size ≤ n)
        unfolding malloc_usable_size
        usable_room call raw given back lo hi room =
            let (n, run, enough) = held call raw given in
            let some_ptr : (ptr == 0) ≡ false = ne→== ptr 0 (λ e. omega arith) in
            (
              n - (ptr + 2 ^ 64 - raw) % 2 ^ 64,
              rw (some_ptr, mine, back) (rw run refl),
              omega arith,
            )

        placed-Recovers : Places (done, some ptr, m') → Recovers m' ptr
        placed-Recovers (placed call raw given whole lo hi tag kept others) =
            let top = fits call total raw given in
            let back = raw_back raw lo (omega arith) tag kept (ours call raw given) in
            record {
              call = call;
              raw = raw;
              given = given;
              back = back;
              room = usable_room call raw given back lo (omega arith) hi;
            }

        -- For a pointer of ours that `posix_memalign` has given, in an allocation that has the bytes
        -- that `malloc` was asked for, `free` looks up the pointer that `malloc` had given, and
        -- `malloc_usable_size` returns at least the bytes that the program asked for.
        pub raw_of-posix_memalign :
            posix_memalign malloc memptr_null alignment size m ≡ (done, some ptr, m')
            → Recovers m' ptr
        raw_of-posix_memalign run = placed-Recovers (subst Places run posix_memalign-Places)
