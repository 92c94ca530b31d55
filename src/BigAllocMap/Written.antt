-- ===== src/BigAllocMap/Written.antt =====
-- `insert` of src/internals/hashmap.rs: its writes, of a new value and of a new key.
use oxidalloc.Prelude.{ℕ, ◌+◌, ◌%◌, ◌^◌, ◌<◌, ◌≡◌, refl, sym, ap, ◌∙◌, arith, Bool, false}
use oxidalloc.BigAllocMap.Defs.{BigAllocMeta, BigAllocMap, put, occupy, add_at}
use oxidalloc.BigAllocMap.Table.{is_occupied, is_tombstone, count, count-put, count-le, one}
use oxidalloc.BigAllocMap.Order.{Holds, NoKey, Spare, Reach, is_empty-is_occupied, Sound-put}
use oxidalloc.BigAllocMap.Lookup.{IsValid}

module _ (m : BigAllocMap) (key i : ℕ) (meta : BigAllocMeta) (valid : IsValid m)
    (inside : i < m.cap) where
  abbrev pub renewed : BigAllocMap
  renewed = record m { table = put (m.table) i (record (m.table i) { meta = meta }) }

  module _ (held : Holds (m.table) key i) where
    pub held-Spare : Spare (m.table) key i
    held-Spare k h other = h (sym (other.1) ∙ held.1)

    pub renewed-IsValid : IsValid renewed
    renewed-IsValid =
        let e = record (m.table i) { meta = meta } in
        record {
          shape = valid.shape;
          bounded = valid.bounded;
          sound =
              Sound-put (m.cap) (m.table) key i e inside held-Spare (λ _. held.1) (valid.sound)
                (is_empty-is_occupied (m.table i) (held.0))
                (λ j p other there. other (valid.sound.unique key j i p inside there held))
                (valid.sound.reach key i inside held);
          counted =
              omega (arith, valid.counted, count-put is_occupied (m.cap) i (m.table) e inside);
          buried = omega (arith, valid.buried, count-put is_tombstone (m.cap) i (m.table) e inside);
        }

  module _ (over : Bool) (way : Reach (m.cap) (m.table) key i)
      (nowhere : NoKey (m.cap) (m.table) key) (free : is_occupied (m.table i) ≡ false)
      (tomb : is_tombstone (m.table i) ≡ over) where
    pub free-Spare : Spare (m.table) key i
    free-Spare k h held = let b = held.0 in cc

    counters :
        ((m.len + 1) % 2 ^ 64 ≡ count is_occupied (m.cap) (put (m.table) i (occupy key meta)))
        × (m.tombstones ≡ count is_tombstone (m.cap) (put (m.table) i (occupy key meta)) + one over)
    counters =
        let occ = count-put is_occupied (m.cap) i (m.table) (occupy key meta) inside in
        let tombs = count-put is_tombstone (m.cap) i (m.table) (occupy key meta) inside in
        let o : one (is_occupied (m.table i)) ≡ 0 = ap one free in
        let t : one (is_tombstone (m.table i)) ≡ one over = ap one tomb in
        (
          omega (arith, valid.counted, valid.bounded, count-le is_occupied (m.cap) (m.table)),
          omega (arith, valid.buried),
        )

    pub added-IsValid : IsValid (add_at i over key meta m)
    added-IsValid =
        let (occ, tombs) = counters in
        record {
          shape = valid.shape;
          bounded = valid.bounded;
          sound =
              Sound-put (m.cap) (m.table) key i (occupy key meta) inside free-Spare (λ _. refl)
                (valid.sound) refl (λ j p _ there. nowhere j p there) way;
          counted = occ;
          buried = ground (arith, tombs);
        }
