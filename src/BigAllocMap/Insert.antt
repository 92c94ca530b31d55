-- ===== src/BigAllocMap/Insert.antt =====
-- The probe of `insert` of src/internals/hashmap.rs, and where it ends.
use oxidalloc.Prelude.{
  ℕ, zero, suc, ◌+◌, ◌≤◌, ◌<◌, ◌≡◌, refl, subst, arith, Bool, true, false, inl, inr, Option, none,
  some, ℕ_discrete, ◌==◌, Bool-cases,
}
use oxidalloc.Outcome.{Outcome, ok, panic}
use oxidalloc.BigAllocMap.Defs.{
  State, BigAllocMeta, BigAllocMap, put, home, add_at, place_new, first_of, insert_from,
}
use oxidalloc.BigAllocMap.Table.{is_occupied, is_tombstone}
use oxidalloc.BigAllocMap.Probe.{PowerOfTwo, slot, slot-zero, slot-lt, next-slot}
use oxidalloc.BigAllocMap.Order.{
  Holds, NoKey, Sound, Reach, Passed, Passed-Reach, NoKey-at_empty, NoKey-at_end,
  is_tombstone-not_occupied, Passed-zero,
}
use oxidalloc.BigAllocMap.Lookup.{State-cases, hit, pass_tombstone, pass_other}

pub data Placed (m : BigAllocMap) (key : ℕ) (meta : BigAllocMeta)
    : Outcome BigAllocMap → Type 0 where
  overwrote :
      {i : ℕ}
      → i < m.cap
      → Holds (m.table) key i
      → Placed m key meta
          (ok (record m { table = put (m.table) i (record (m.table i) { meta = meta }) }))
  added :
      {i : ℕ} {over : Bool}
      → i < m.cap
      → Reach (m.cap) (m.table) key i
      → NoKey (m.cap) (m.table) key
      → is_occupied (m.table i) ≡ false
      → is_tombstone (m.table i) ≡ over
      → Placed m key meta (ok (add_at i over key meta m))
  full :
      ((u : ℕ) → u < m.cap → is_occupied (m.table (slot (m.cap) key u)) ≡ true)
      → Placed m key meta panic

-- `first_tomb` after `s` turns
pub data Tombs (m : BigAllocMap) (key s : ℕ) : Option ℕ → Type 0 where
  none_yet :
      ((u : ℕ) → u < s → is_occupied (m.table (slot (m.cap) key u)) ≡ true) → Tombs m key s none
  first :
      (u : ℕ)
      → u < s
      → is_tombstone (m.table (slot (m.cap) key u)) ≡ true
      → Tombs m key s (some (slot (m.cap) key u))

module _ (m : BigAllocMap) (key : ℕ) (meta : BigAllocMeta) (power : PowerOfTwo (m.cap))
    (sound : Sound (m.cap) (m.table)) where
  Tombs-tombstone :
      (s : ℕ) (t : Option ℕ)
      → is_tombstone (m.table (slot (m.cap) key s)) ≡ true
      → Tombs m key s t
      → Tombs m key (s + 1) (first_of t (slot (m.cap) key s))
  Tombs-tombstone s t st (none_yet all) = first s (omega arith) st
  Tombs-tombstone s t st (first u h e) = first u (omega arith) e

  Tombs-occupied :
      (s : ℕ) (t : Option ℕ)
      → is_occupied (m.table (slot (m.cap) key s)) ≡ true
      → Tombs m key s t
      → Tombs m key (s + 1) t
  Tombs-occupied s t st (none_yet all) =
      none_yet (λ u h. elim (ℕ_discrete u s) [ yes now ↦ rw now st | no old ↦ all u (omega arith) ])
  Tombs-occupied s t st (first u h e) = first u (omega arith) e

  at_tombstone :
      (s u : ℕ)
      → u < s
      → s ≤ m.cap
      → Passed (m.cap) (m.table) key s
      → NoKey (m.cap) (m.table) key
      → is_tombstone (m.table (slot (m.cap) key u)) ≡ true
      → Placed m key meta (ok (add_at (slot (m.cap) key u) true key meta m))
  at_tombstone s u h less past nowhere st =
      added (slot-lt (m.cap) power key u)
        (Passed-Reach (m.cap) (m.table) key u (λ v q. past v (omega arith)) (omega arith)) nowhere
        (is_tombstone-not_occupied (m.table (slot (m.cap) key u)) st) st

  at_empty :
      (s : ℕ) (t : Option ℕ)
      → s < m.cap
      → Passed (m.cap) (m.table) key s
      → (m.table (slot (m.cap) key s)).state ≡ State.empty
      → Tombs m key s t
      → Placed m key meta (ok (place_new t (slot (m.cap) key s) key meta m))
  at_empty s t less past st (none_yet all) =
      added {over = false} (slot-lt (m.cap) power key s)
        (Passed-Reach (m.cap) (m.table) key s past less)
        (NoKey-at_empty (m.cap) (m.table) key sound s past (rw st refl)) (rw st refl) (rw st refl)
  at_empty s t less past st (first u h e) =
      at_tombstone s u h (omega arith) past
        (NoKey-at_empty (m.cap) (m.table) key sound s past (rw st refl)) e

  at_end :
      (t : Option ℕ)
      → Passed (m.cap) (m.table) key (m.cap)
      → Tombs m key (m.cap) t
      → (idx : ℕ) → Placed m key meta (insert_from 0 idx t key meta m)
  unfolding insert_from
  at_end t past (none_yet all) idx = full all
  at_end t past (first u h e) idx =
      at_tombstone (m.cap) u h (omega arith) past (NoKey-at_end (m.cap) (m.table) key sound past) e

  insert_from-Placed :
      (left s : ℕ) (t : Option ℕ)
      → s + left ≡ m.cap
      → Passed (m.cap) (m.table) key s
      → Tombs m key s t
      → Placed m key meta (insert_from left (slot (m.cap) key s) t key meta m)
  unfolding insert_from
  insert_from-Placed zero s t h past tombs =
      let e : s ≡ m.cap = omega arith in
      at_end t (subst (λ n. Passed (m.cap) (m.table) key n) e past)
        (subst (λ n. Tombs m key n t) e tombs) (slot (m.cap) key s)
  insert_from-Placed (suc left) s t h past tombs =
      let here = slot (m.cap) key s in
      let turn = λ (o : Option ℕ). insert_from-Placed left (s + 1) o (omega arith) in
      elim (State-cases ((m.table here).state)) [
        | inl st ↦ rw (st, insert_from) (at_empty s t (omega arith) past st tombs)
        | inr (inr st) ↦
            rw (st, insert_from, next-slot (m.cap) power key s)
              (turn (first_of t here) (pass_tombstone m key power sound s st past)
                (Tombs-tombstone s t (rw st refl) tombs))
        | inr (inl st) ↦ elim (Bool-cases ((m.table here).key == key)) [
          | inl same ↦
              rw (st, insert_from, same)
                (overwrote (slot-lt (m.cap) power key s) (hit m key power sound here st same))
          | inr other ↦
              rw (st, insert_from, other, next-slot (m.cap) power key s)
                (turn t (pass_other m key power sound s st other past)
                  (Tombs-occupied s t (rw st refl) tombs))
        ]
      ]

  pub insert_probe : Placed m key meta (insert_from (m.cap) (home (m.cap) key) none key meta m)
  insert_probe = rw (slot-zero (m.cap) power key) (
      insert_from-Placed (m.cap) 0 none (omega arith) (Passed-zero (m.cap) (m.table) key)
        (none_yet (λ u h. absurd (omega arith))))
