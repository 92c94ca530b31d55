-- ===== src/BigAllocMap/Lookup.antt =====
-- `get` and the probe of `remove` of src/internals/hashmap.rs, and when a map is in order.
use oxidalloc.Prelude.{
  ℕ, zero, suc, ◌+◌, ◌^◌, ◌≤◌, ◌<◌, ◌≡◌, refl, subst, arith, true, false, ◌⊎◌, inl, inr, Option,
  none, some, ◌==◌, Bool-cases, ==_iff,
}
use oxidalloc.BigAllocMap.Defs.{
  State, BigAllocMeta, BigAllocMap, get_from, get, remove_at, remove_from, remove,
}
use oxidalloc.BigAllocMap.Table.{is_occupied, is_tombstone, is_empty, count}
use oxidalloc.BigAllocMap.Probe.{PowerOfTwo, cap-pos, slot, slot-zero, slot-lt, next-slot}
use oxidalloc.BigAllocMap.Order.{
  Holds, NoKey, Sound, Passed, Passed-zero, Passed-suc, NoKey-at_empty, NoKey-at_end, Finds,
  Finds-unique,
}

-- The map in order: its counters are right, and its table is in order.
pub record IsValid (m : BigAllocMap) : Type 0 where
  pub shape : (m.cap ≡ 0) ⊎ PowerOfTwo (m.cap)
  pub bounded : m.cap ≤ 2 ^ 50
  pub sound : Sound (m.cap) (m.table)
  pub counted : m.len ≡ count is_occupied (m.cap) (m.table)
  pub buried : m.tombstones ≡ count is_tombstone (m.cap) (m.table)

pub State-cases : (s : State) → (s ≡ State.empty) ⊎ (s ≡ State.occupied) ⊎ (s ≡ State.tombstone)
State-cases State.empty = inl refl
State-cases State.occupied = inr (inl refl)
State-cases State.tombstone = inr (inr refl)

-- what the probe of `remove` does
pub data Probed (m : BigAllocMap) (key : ℕ) : Option BigAllocMeta × BigAllocMap → Type 0 where
  removed :
      {i : ℕ}
      → i < m.cap
      → Holds (m.table) key i
      → Probed m key (some ((m.table i).meta), remove_at i m)
  missing : NoKey (m.cap) (m.table) key → Probed m key (none, m)

module _ (m : BigAllocMap) (key : ℕ) (power : PowerOfTwo (m.cap))
    (sound : Sound (m.cap) (m.table)) where
  -- an occupied entry, by the test of its key
  pub hit :
      (i : ℕ)
      → (m.table i).state ≡ State.occupied
      → ((m.table i).key == key) ≡ true
      → Holds (m.table) key i
  hit i st same = (rw st refl, (==_iff _ _).0 same)

  pub pass_tombstone :
      (s : ℕ)
      → (m.table (slot (m.cap) key s)).state ≡ State.tombstone
      → Passed (m.cap) (m.table) key s
      → Passed (m.cap) (m.table) key (s + 1)
  pass_tombstone s st past =
      let here = slot (m.cap) key s in
      let no_key : is_occupied (m.table here) ≡ false = rw st refl in
      let busy : is_empty (m.table here) ≡ false = rw st refl in
      Passed-suc (m.cap) (m.table) key s past busy
        (λ (held : Holds (m.table) key here). let h = held.0 in cc)

  pub pass_other :
      (s : ℕ)
      → (m.table (slot (m.cap) key s)).state ≡ State.occupied
      → ((m.table (slot (m.cap) key s)).key == key) ≡ false
      → Passed (m.cap) (m.table) key s
      → Passed (m.cap) (m.table) key (s + 1)
  pass_other s st other past =
      let here = slot (m.cap) key s in
      let busy : is_empty (m.table here) ≡ false = rw st refl in
      Passed-suc (m.cap) (m.table) key s past busy
        (λ (held : Holds (m.table) key here). let h = (==_iff _ _).1 (held.1) in cc)

  get_from-Finds :
      (left s : ℕ)
      → s + left ≡ m.cap
      → Passed (m.cap) (m.table) key s
      → Finds (m.cap) (m.table) key (get_from left (slot (m.cap) key s) key m)
  unfolding get_from
  get_from-Finds zero s h past =
      let e : s ≡ m.cap = omega arith in
      Finds.absent (
        NoKey-at_end (m.cap) (m.table) key sound
          (subst (λ t. Passed (m.cap) (m.table) key t) e past))
  get_from-Finds (suc left) s h past =
      let here = slot (m.cap) key s in
      let turn = get_from-Finds left (s + 1) (omega arith) in
      elim (State-cases ((m.table here).state)) [
        | inl st ↦
            rw (st, get_from)
              (Finds.absent (NoKey-at_empty (m.cap) (m.table) key sound s past (rw st refl)))
        | inr (inr st) ↦
            rw (st, get_from, next-slot (m.cap) power key s) (turn (pass_tombstone s st past))
        | inr (inl st) ↦ elim (Bool-cases ((m.table here).key == key)) [
          | inl same ↦
              rw (st, get_from, same) (Finds.found (slot-lt (m.cap) power key s) (hit here st same))
          | inr other ↦
              rw (st, get_from, other, next-slot (m.cap) power key s)
                (turn (pass_other s st other past))
        ]
      ]

  remove_from-Probed :
      (left s : ℕ)
      → s + left ≡ m.cap
      → Passed (m.cap) (m.table) key s
      → Probed m key (remove_from left (slot (m.cap) key s) key m)
  unfolding remove_from
  remove_from-Probed zero s h past =
      let e : s ≡ m.cap = omega arith in
      missing (
        NoKey-at_end (m.cap) (m.table) key sound
          (subst (λ t. Passed (m.cap) (m.table) key t) e past))
  remove_from-Probed (suc left) s h past =
      let here = slot (m.cap) key s in
      let turn = remove_from-Probed left (s + 1) (omega arith) in
      elim (State-cases ((m.table here).state)) [
        | inl st ↦
            rw (st, remove_from)
              (missing (NoKey-at_empty (m.cap) (m.table) key sound s past (rw st refl)))
        | inr (inr st) ↦
            rw (st, remove_from, next-slot (m.cap) power key s) (turn (pass_tombstone s st past))
        | inr (inl st) ↦ elim (Bool-cases ((m.table here).key == key)) [
          | inl same ↦
              rw (st, remove_from, same) (removed (slot-lt (m.cap) power key s) (hit here st same))
          | inr other ↦
              rw (st, remove_from, other, next-slot (m.cap) power key s)
                (turn (pass_other s st other past))
        ]
      ]

-- `get` gives what the key maps to.
pub get-Finds : (m : BigAllocMap) → IsValid m → (key : ℕ) → Finds (m.cap) (m.table) key (get m key)
unfolding get
get-Finds m valid key = elim (valid.shape) [
  | inl none_yet ↦ rw none_yet (Finds.absent (λ i h. absurd (omega arith)))
  | inr power ↦
      let more : m.cap == 0 ≡ false = let pos = cap-pos (m.cap) power in ground arith in
      rw (more, slot-zero (m.cap) power key)
        (get_from-Finds m key power (valid.sound) (m.cap) 0 (omega arith)
          (Passed-zero (m.cap) (m.table) key))
]

pub remove-Probed : (m : BigAllocMap) → IsValid m → (key : ℕ) → Probed m key (remove m key)
unfolding remove
remove-Probed m valid key = elim (valid.shape) [
  | inl none_yet ↦ rw none_yet (missing (λ i h. absurd (omega arith)))
  | inr power ↦
      let more : m.cap == 0 ≡ false = let pos = cap-pos (m.cap) power in ground arith in
      rw (more, slot-zero (m.cap) power key)
        (remove_from-Probed m key power (valid.sound) (m.cap) 0 (omega arith)
          (Passed-zero (m.cap) (m.table) key))
]

module _ (m : BigAllocMap) (key : ℕ) (valid : IsValid m) where
  pub get-is : (o : Option BigAllocMeta) → Finds (m.cap) (m.table) key o → get m key ≡ o
  get-is o finds =
      Finds-unique (m.cap) (m.table) key (valid.sound) _ _ (get-Finds m valid key) finds
