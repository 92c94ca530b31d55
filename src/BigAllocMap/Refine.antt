-- ===== src/BigAllocMap/Refine.antt =====
-- `insert` of src/internals/hashmap.rs as the update of a finite map, with the growth inside it.
use oxidalloc.Prelude.{
  ℕ, suc, ◌+◌, ◌*◌, ◌%◌, ◌^◌, ◌≤◌, ◌<◌, ◌≡◌, ◌≢◌, refl, sym, ◌∙◌, subst, arith, Bool, true, false,
  ◌&&◌, ◌||◌, not, inl, inr, none, some, dec_le, dec_lt, ltb, leb, ◌==◌, if◌then◌else◌, Bool-cases,
}
use oxidalloc.Prelude.Word.{two_pow_suc, two_pow_mono, u64_max}
use oxidalloc.Outcome.{Outcome, ok, panic, Returns, ◌>>=◌}
use oxidalloc.BigAllocMap.Defs.{
  BigAllocMeta, BigAllocMap, get, occupy, zeroed, initial_cap, entry_size, grown_cap, alloc_raw,
  alloc_table, grow, ensure_capacity, insert, insert_from, home,
}
use oxidalloc.BigAllocMap.Table.{is_occupied, is_tombstone, count-le, count-none, count-all}
use oxidalloc.BigAllocMap.Probe.{PowerOfTwo, slot-onto, cap-pos}
use oxidalloc.BigAllocMap.Order.{Finds, Finds-put, Finds-put_same}
use oxidalloc.BigAllocMap.Lookup.{IsValid, get-Finds, get-is}
use oxidalloc.BigAllocMap.Insert.{Placed, overwrote, added, full, insert_probe}
use oxidalloc.BigAllocMap.Grow.{zeroed-Sound, zeroed-NoKey, move_entries-Moved}
use oxidalloc.BigAllocMap.Written.{renewed-IsValid, held-Spare, free-Spare, added-IsValid}

-- `grow` doubles a table that is smaller than 2 ^ 50 entries.
grown_cap_lem :
    (cap : ℕ)
    → PowerOfTwo cap
    → cap ≤ 2 ^ 50
    → PowerOfTwo (grown_cap cap) × (cap < grown_cap cap) × (grown_cap cap ≤ 2 ^ 51)
grown_cap_lem cap power bound =
    let (k, small, e) = power in
    let pos = cap-pos cap power in
    let k_small : k < 51 = elim (dec_lt k 51) [
      | yes h ↦ h
      | no h ↦ absurd (omega (arith, two_pow_mono 51 k (omega arith)))
    ] in
    let calc : (if ltb u64_max (cap * 2) then u64_max else cap * 2) ≡ cap * 2 = ground arith in
    elim (dec_le initial_cap (cap * 2)) [
      | yes big ↦
          let top : grown_cap cap ≡ 2 ^ suc k = omega (arith, calc, two_pow_suc k) in
          ((suc k, omega arith, top), omega (arith, calc), omega (arith, calc))
      | no low ↦
          let top : grown_cap cap ≡ 2 ^ 14 = omega (arith, calc) in
          ((14, omega arith, top), omega (arith, calc), omega (arith, calc))
    ]

abbrev fresh : BigAllocMap
fresh = record { table = zeroed; cap = initial_cap; len = 0; tombstones = 0 }

fresh-IsValid : IsValid fresh
fresh-IsValid = record {
  shape = inr (14, omega arith, refl);
  bounded = omega arith;
  sound = zeroed-Sound initial_cap;
  counted = sym (count-none is_occupied initial_cap zeroed (λ i. refl));
  buried = sym (count-none is_tombstone initial_cap zeroed (λ i. refl));
}

-- the map has no table, or too little room for one more key
abbrev pub is_due : BigAllocMap → Bool
is_due m =
    m.cap == 0
    || not (
        leb ((m.len + 1) * 10 % 2 ^ 64) (m.cap * 7 % 2 ^ 64)
        && leb (m.tombstones * 2 % 2 ^ 64) (m.cap))

-- the bytes of the next table
abbrev pub next_bytes : BigAllocMap → ℕ
next_bytes m = (if m.cap == 0 then initial_cap else grown_cap m.cap) * entry_size % 2 ^ 64

module _ (mmap : ℕ → Bool) where
  -- the memory for the next table was asked for and refused
  pub record NoTable (m : BigAllocMap) : Type 0 where
    pub due : is_due m ≡ true
    pub answer : mmap (next_bytes m) ≡ false

  -- a map with room for one more key
  data Ensured (m : BigAllocMap) : Outcome BigAllocMap → Type 0 where
    ready :
        {n : BigAllocMap}
        → IsValid n
        → PowerOfTwo (n.cap)
        → n.len < n.cap
        → ((k : ℕ) → get n k ≡ get m k)
        → Ensured m (ok n)
    refused : NoTable m → Ensured m panic

  -- the key maps to the value, every other key to what it did; or the system gave no memory
  pub data Inserts (key : ℕ) (meta : BigAllocMeta) (m : BigAllocMap)
      : Outcome BigAllocMap → Type 0 where
    inserted :
        {r : BigAllocMap}
        → IsValid r
        → get r key ≡ some meta
        → ((k : ℕ) → k ≢ key → get r k ≡ get m k)
        → Inserts key meta m (ok r)
    no_memory : NoTable m → Inserts key meta m panic

  -- the key maps to the value, and every other key to what it did
  record Updated (key : ℕ) (meta : BigAllocMeta) (m r : BigAllocMap) : Type 0 where
    valid : IsValid r
    mine : get r key ≡ some meta
    others : (k : ℕ) → k ≢ key → get r k ≡ get m k

  module _ (mmap_fits : (size : ℕ) → mmap size ≡ true → size < 2 ^ 47) where
    alloc_table-Ensured :
        (m : BigAllocMap) → IsValid m → m.cap ≡ 0 → Ensured m (alloc_table mmap initial_cap)
    unfolding alloc_table alloc_raw
    alloc_table-Ensured m valid none_yet =
        elim (Bool-cases (mmap (initial_cap * entry_size % 2 ^ 64))) [
          | inr no_room ↦
              let e : (m.cap == 0) ≡ true = ground (arith, none_yet) in
              rw no_room (refused (record { due = rw e refl; answer = rw e no_room }))
          | inl room ↦
              let valid' = fresh-IsValid in
              rw room (
                ready valid' (14, omega arith, refl) (omega arith)
                  (λ k.
                    get-is (fresh) k valid' none (Finds.absent (zeroed-NoKey initial_cap k))
                    ∙ sym (get-is m k valid none (Finds.absent (λ i h. absurd (omega arith))))))
        ]

    grow-Ensured :
        (m : BigAllocMap)
        → IsValid m
        → PowerOfTwo (m.cap)
        → is_due m ≡ true
        → (m.cap == 0) ≡ false
        → Ensured m (grow mmap m)
    unfolding grow alloc_raw
    grow-Ensured m valid power due some_cap =
        let (power', wider, top) = grown_cap_lem (m.cap) power (valid.bounded) in
        let size = grown_cap (m.cap) * entry_size % 2 ^ 64 in
        elim (Bool-cases (mmap size)) [
          | inr no_room ↦ rw no_room (refused (record { due = due; answer = rw some_cap no_room }))
          | inl room ↦
              let (t, run, moved) =
                move_entries-Moved (m.cap) (m.table) (valid.sound) (grown_cap (m.cap)) power' wider
                  (m.cap) (omega arith) in
              let n = record m { table = t; cap = grown_cap (m.cap); tombstones = 0 } in
              let valid' : IsValid n = record {
                shape = inr power';
                bounded = omega (arith, mmap_fits size room, top);
                sound = moved.sound;
                counted = valid.counted ∙ sym (moved.counted);
                buried = sym (moved.no_tombs);
              } in
              rw (room, ◌>>=◌, run)
                (ready {n = n} valid' power'
                  (omega (arith, valid.counted, count-le is_occupied (m.cap) (m.table)))
                  (λ k. get-is n k valid' (get m k) (moved.kept k (get m k) (get-Finds m valid k))))
        ]

    ensure_capacity-Ensured : (m : BigAllocMap) → IsValid m → Ensured m (ensure_capacity mmap m)
    unfolding ensure_capacity
    ensure_capacity-Ensured m valid = elim (valid.shape) [
      | inl none_yet ↦
          let zero_cap : m.cap == 0 ≡ true = ground arith in
          rw zero_cap (alloc_table-Ensured m valid none_yet)
      | inr power ↦
          let pos = cap-pos (m.cap) power in
          let few = count-le is_occupied (m.cap) (m.table) in
          let more : m.cap == 0 ≡ false = ground arith in
          elim (Bool-cases (
            leb ((m.len + 1) * 10 % 2 ^ 64) (m.cap * 7 % 2 ^ 64)
            && leb (m.tombstones * 2 % 2 ^ 64) (m.cap))) [
              | inl low ↦
                  rw (more, low)
                    (ready valid power (ground (arith, few, valid.counted, valid.bounded, pos))
                      (λ k. refl))
              | inr high ↦ rw (more, high) (grow-Ensured m valid power (rw (more, high) refl) more)
            ]
    ]

    -- from the probe's result, on the map that has room
    Placed-Updated :
        (m : BigAllocMap) (key : ℕ) (meta : BigAllocMeta)
        → IsValid m
        → PowerOfTwo (m.cap)
        → m.len < m.cap
        → (r : Outcome BigAllocMap) → Placed m key meta r
        → Returns r (Updated key meta m)
    Placed-Updated m key meta valid power room r (overwrote {i} h held) =
        let after = renewed-IsValid m key i meta valid h held in
        let e = record (m.table i) { meta = meta } in
        let spare = held-Spare m key i meta valid h held in
        (
          _,
          refl,
          record {
            valid = after;
            mine =
                get-is _ key after _
                  (Finds-put_same (m.cap) (m.table) key i e h spare (λ _. held.1) (held.0));
            others = λ k other. get-is _ k after _ (
                Finds-put (m.cap) (m.table) key i e h spare (λ _. held.1) k _ other
                  (get-Finds m valid k));
          },
        )
    Placed-Updated m key meta valid power room r (added {i} {over} h way nowhere free tomb) =
        let after = added-IsValid m key i meta valid h over way nowhere free tomb in
        let e = occupy key meta in
        let spare = free-Spare m key i meta valid h over way nowhere free tomb in
        (
          _,
          refl,
          record {
            valid = after;
            mine =
                get-is _ key after _
                  (Finds-put_same (m.cap) (m.table) key i e h spare (λ _. refl) refl);
            others = λ k other. get-is _ k after _ (
                Finds-put (m.cap) (m.table) key i e h spare (λ _. refl) k _ other
                  (get-Finds m valid k));
          },
        )
    Placed-Updated m key meta valid power room r (full all) =
        let each = λ (i : ℕ). λ (h : i < m.cap).
          let (s, q, e) = slot-onto (m.cap) power key i h in
          subst (λ t. is_occupied (m.table t) ≡ true) e (all s q) in
        absurd (omega (arith, valid.counted, count-all is_occupied (m.cap) (m.table) each))

    Ensured-Inserts :
        (m : BigAllocMap) (key : ℕ) (meta : BigAllocMeta) (r : Outcome BigAllocMap)
        → Ensured m r
        → Inserts key meta m (r >>= (λ n. insert_from (n.cap) (home (n.cap) key) none key meta n))
    Ensured-Inserts m key meta r (ready {n} valid power room same) =
        let (x, run, u) =
          Placed-Updated n key meta valid power room _
            (insert_probe n key meta power (valid.sound)) in
        rw run (inserted u.valid u.mine (λ k h. u.others k h ∙ same k))
    Ensured-Inserts m key meta r (refused h) = no_memory h

    -- On a map in order `insert` ends: after it the map is in order, the key maps to the value and
    -- every other key to what it did before, also when the table grows. It aborts only where the
    -- map has no table or too little room for one more key, and the system refuses the memory for
    -- the next table. Condition: the system maps less than 2 ^ 47 bytes at once.
    pub insert-Inserts :
        (m : BigAllocMap)
        → IsValid m
        → (key : ℕ) (meta : BigAllocMeta) → Inserts key meta m (insert mmap key meta m)
    unfolding insert
    insert-Inserts m valid key meta = Ensured-Inserts m key meta _ (ensure_capacity-Ensured m valid)
