-- ===== src/BigAllocMap/Remove.antt =====
-- `remove` of src/internals/hashmap.rs, and what every key maps to after it.
use oxidalloc.Prelude.{
  ℕ, suc, ◌+◌, ◌<◌, ◌≡◌, ◌≢◌, refl, sym, ap, ◌∙◌, subst, arith, false, Option, none, ℕ_discrete,
}
use oxidalloc.BigAllocMap.Defs.{
  State, Entry, BigAllocMeta, BigAllocMap, put, get, remove_at, remove,
}
use oxidalloc.BigAllocMap.Table.{is_occupied, is_tombstone, count, count-put, count-le, one}
use oxidalloc.BigAllocMap.Order.{
  Holds, NoKey, Spare, Finds, Finds-put, Sound-put, here-Holds, put-Holds, is_tombstone-is_occupied,
}
use oxidalloc.BigAllocMap.Lookup.{
  IsValid, get-Finds, get-is, Probed, removed, missing, remove-Probed,
}

-- the key's value comes back and the key is gone; every other key maps to what it did
pub record Removes (m : BigAllocMap) (key : ℕ) (result : Option BigAllocMeta × BigAllocMap)
    : Type 0 where
  pub valid : IsValid (result.1)
  pub returned : result.0 ≡ get m key
  pub gone : get (result.1) key ≡ none
  pub others : (k : ℕ) → k ≢ key → get (result.1) k ≡ get m k

module _ (m : BigAllocMap) (key i : ℕ) (valid : IsValid m) (inside : i < m.cap)
    (held : Holds (m.table) key i) where
  abbrev grave : Entry
  grave = record (m.table i) { state = State.tombstone }

  spare : Spare (m.table) key i
  spare k h other = h (sym (other.1) ∙ held.1)

  counters :
      (m.len ≡ suc (count is_occupied (m.cap) (put (m.table) i grave)))
      × (m.tombstones + 1 ≡ count is_tombstone (m.cap) (put (m.table) i grave))
  counters =
      let occ = count-put is_occupied (m.cap) i (m.table) grave inside in
      let tomb = count-put is_tombstone (m.cap) i (m.table) grave inside in
      let h = held.0 in
      let not_tomb : is_tombstone (m.table i) ≡ false = is_tombstone-is_occupied (m.table i) h in
      let same = valid.counted in
      let dead = valid.buried in
      let o : one (is_occupied (m.table i)) ≡ 1 = ap one h in
      let t : one (is_tombstone (m.table i)) ≡ 0 = ap one not_tomb in (omega arith, omega arith)

  remove_at-IsValid : IsValid (remove_at i m)
  remove_at-IsValid =
      let (occ, tomb) = counters in
      record {
        shape = valid.shape;
        bounded = valid.bounded;
        sound =
            Sound-put (m.cap) (m.table) key i grave inside spare (λ h. cc) (valid.sound) refl
              (λ j p other there. other (valid.sound.unique key j i p inside there held))
              (valid.sound.reach key i inside held);
        counted = ground (arith, occ);
        buried =
            omega
              (arith, tomb, count-le is_tombstone (m.cap) (put (m.table) i grave), valid.bounded);
      }

  remove_at-gone : NoKey (m.cap) (put (m.table) i grave) key
  remove_at-gone j p there = elim (ℕ_discrete j i) [
    | yes here ↦
        let (busy, same) =
          here-Holds (m.cap) (m.table) key i grave inside spare key
            (subst (λ t. Holds (put (m.table) i grave) key t) here there) in
        cc
    | no other ↦ other (
        valid.sound.unique key j i p inside
          (put-Holds (m.cap) (m.table) key i grave inside spare key j other there) held)
  ]

Probed-Removes :
    (m : BigAllocMap) (key : ℕ)
    → IsValid m
    → (result : Option BigAllocMeta × BigAllocMap) → Probed m key result
    → Removes m key result
Probed-Removes m key valid result (removed {i} inside held) =
    let after = remove_at-IsValid m key i valid inside held in
    record {
      valid = after;
      returned = sym (get-is m key valid _ (Finds.found inside held));
      gone = get-is _ key after none (Finds.absent (remove_at-gone m key i valid inside held));
      others = λ k h. get-is _ k after _ (
          Finds-put (m.cap) (m.table) key i (grave m key i valid inside held) inside
            (spare m key i valid inside held) (λ q. cc) k _ h (get-Finds m valid k));
    }
Probed-Removes m key valid result (missing none_there) =
    let nothing = get-is m key valid none (Finds.absent none_there) in
    record { valid = valid; returned = sym nothing; gone = nothing; others = λ k h. refl }

-- On a map in order `remove` gives the value of the key, and after it the map is in order, has no
-- such key, and maps every other key to what it did before.
pub remove-Removes : (m : BigAllocMap) → IsValid m → (key : ℕ) → Removes m key (remove m key)
remove-Removes m valid key = Probed-Removes m key valid _ (remove-Probed m valid key)
