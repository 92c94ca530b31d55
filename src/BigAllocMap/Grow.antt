-- ===== src/BigAllocMap/Grow.antt =====
-- `grow` and `reinsert` of src/internals/hashmap.rs, from the old table to the new one.
use oxidalloc.Prelude.{
  ℕ, zero, suc, ◌+◌, ◌≤◌, ◌<◌, ◌≡◌, ◌≢◌, refl, sym, ap, subst, arith, true, false, inl, inr, Option,
  none, some, ℕ_discrete,
}
use oxidalloc.Outcome.{Outcome, ok, panic, ◌>>=◌, Returns}
use oxidalloc.BigAllocMap.Defs.{
  Table, BigAllocMeta, put, occupy, zeroed, reinsert_from, reinsert, move_entry, move_entries,
}
use oxidalloc.BigAllocMap.Table.{
  count-suc, is_occupied, is_tombstone, one, count, count-put, count-le, count-all, count-none,
}
use oxidalloc.BigAllocMap.Probe.{PowerOfTwo, slot, slot-zero, slot-lt, slot-onto, next-slot}
use oxidalloc.BigAllocMap.Order.{
  Holds, NoKey, Spare, Sound, Reach, Finds, found, absent, Finds-none, Finds-put, Finds-put_same,
  Sound-put, is_empty-is_occupied,
}
use oxidalloc.BigAllocMap.Lookup.{State-cases}

-- what the probe of `reinsert` does
data Stored (cap : ℕ) (table : Table) (key : ℕ) (meta : BigAllocMeta) : Outcome Table → Type 0 where
  stored :
      {i : ℕ}
      → i < cap
      → is_occupied (table i) ≡ false
      → Reach cap table key i
      → Stored cap table key meta (ok (put table i (occupy key meta)))
  full :
      ((u : ℕ) → u < cap → is_occupied (table (slot cap key u)) ≡ true)
      → Stored cap table key meta panic

module _ (cap key : ℕ) (meta : BigAllocMeta) (table : Table) (power : PowerOfTwo cap) where
  at_room :
      (s : ℕ)
      → s < cap
      → ((u : ℕ) → u < s → is_occupied (table (slot cap key u)) ≡ true)
      → is_occupied (table (slot cap key s)) ≡ false
      → Stored cap table key meta (ok (put table (slot cap key s) (occupy key meta)))
  at_room s h past st = stored (slot-lt cap power key s) st (record {
    turns = s;
    less = h;
    stop = refl;
    full = λ u q. is_empty-is_occupied (table (slot cap key u)) (past u q);
  })

  reinsert_from-Stored :
      (left s : ℕ)
      → s + left ≡ cap
      → ((u : ℕ) → u < s → is_occupied (table (slot cap key u)) ≡ true)
      → Stored cap table key meta (reinsert_from left (slot cap key s) cap key meta table)
  unfolding reinsert_from
  reinsert_from-Stored zero s h past = full (λ u q. past u (omega arith))
  reinsert_from-Stored (suc left) s h past = elim (State-cases ((table (slot cap key s)).state)) [
    | inl st ↦ rw (st, reinsert_from) (at_room s (omega arith) past (rw st refl))
    | inr (inr st) ↦ rw (st, reinsert_from) (at_room s (omega arith) past (rw st refl))
    | inr (inl st) ↦
        rw (st, reinsert_from, next-slot cap power key s)
          (reinsert_from-Stored left (s + 1) (omega arith) (λ u q. elim (ℕ_discrete u s) [
            | yes now ↦ rw (now, st) refl
            | no old ↦ past u (omega arith)
          ]))
  ]

  -- with room in the table it stores
  Stored-stores :
      (r : Outcome Table)
      → count is_occupied cap table < cap
      → Stored cap table key meta r
      → (i : ℕ) × (r ≡ ok (put table i (occupy key meta)))
        × (i < cap)
        × (is_occupied (table i) ≡ false)
        × Reach cap table key i
  Stored-stores r room (stored {i} h st way) = (i, refl, h, st, way)
  Stored-stores r room (full all) =
      let each = λ (i : ℕ). λ (h : i < cap).
        let (s, q, e) = slot-onto cap power key i h in
        subst (λ t. is_occupied (table t) ≡ true) e (all s q) in
      absurd (omega (arith, count-all is_occupied cap table each))

  reinsert-stores :
      count is_occupied cap table < cap
      → (i : ℕ) × (reinsert cap key meta table ≡ ok (put table i (occupy key meta)))
        × (i < cap)
        × (is_occupied (table i) ≡ false)
        × Reach cap table key i
  reinsert-stores room = Stored-stores _ room (
      rw (slot-zero cap power key)
        (reinsert_from-Stored cap 0 (omega arith) (λ u q. absurd (omega arith))))

-- a table of zero bytes maps no key
pub zeroed-Sound : (cap : ℕ) → Sound cap zeroed
zeroed-Sound cap = record {
  unique = λ k i j p q held _. let b = held.0 in cc;
  reach = λ k i p held. let b = held.0 in cc;
}

pub zeroed-NoKey : (cap key : ℕ) → NoKey cap zeroed key
zeroed-NoKey cap key i h held = let b = held.0 in cc

-- The first `n` entries of the old table have been moved.
pub record Moved (cap n : ℕ) (old table : Table) : Type 0 where
  pub sound : Sound cap table
  pub counted : count is_occupied cap table ≡ count is_occupied n old
  pub no_tombs : count is_tombstone cap table ≡ 0
  pub kept : (k : ℕ) (o : Option BigAllocMeta) → Finds n old k o → Finds cap table k o

module _ (old_cap : ℕ) (old : Table) (sound : Sound old_cap old) where
  -- without the last of `suc n` entries, for a key that it is not of
  Finds-before :
      (n k : ℕ) (o : Option BigAllocMeta)
      → ¬ Holds old k n
      → Finds (suc n) old k o
      → Finds n old k o
  Finds-before n k o other (found {i} p q) =
      let apart : i ≢ n = λ e. other (subst (λ t. Holds old k t) e q) in Finds.found (omega arith) q
  Finds-before n k o other (absent none_there) = Finds.absent (λ i p. none_there i (omega arith))

  Finds-last :
      (n k : ℕ) (o : Option BigAllocMeta)
      → n < old_cap
      → Holds old k n
      → Finds (suc n) old k o
      → o ≡ some ((old n).meta)
  Finds-last n k o inside held (found {i} p q) =
      ap (λ t. some ((old t).meta)) (sound.unique k i n (omega arith) inside q held)
  Finds-last n k o inside held (absent none_there) = absurd (none_there n (omega arith) held)

  alone_before : (n k : ℕ) → n < old_cap → Holds old k n → NoKey n old k
  alone_before n k inside held i p q = omega (arith, sound.unique k i n (omega arith) inside q held)

  module _ (cap : ℕ) (power : PowerOfTwo cap) (wider : old_cap < cap) where
    Moved-skip :
        (n : ℕ) (table : Table)
        → is_occupied (old n) ≡ false
        → Moved cap n old table
        → Moved cap (suc n) old table
    Moved-skip n table free now = record {
      sound = now.sound;
      counted =
          let z : one (is_occupied (old n)) ≡ 0 = ap one free in
          omega (arith, now.counted, count-suc is_occupied n old);
      no_tombs = now.no_tombs;
      kept = λ k o finds. now.kept k o (Finds-before n k o (λ held. let h = held.0 in cc) finds);
    }

    Moved-store :
        (n i : ℕ) (table : Table)
        → n < old_cap
        → is_occupied (old n) ≡ true
        → i < cap
        → is_occupied (table i) ≡ false
        → Reach cap table ((old n).key) i
        → Moved cap n old table
        → Moved cap (suc n) old (put table i (occupy ((old n).key) ((old n).meta)))
    Moved-store n i table inside busy h st way now =
        let key = (old n).key in
        let e = occupy key ((old n).meta) in
        let nowhere =
          Finds-none cap table key
            (now.kept key none (Finds.absent (alone_before n key inside (busy, refl)))) in
        let spare : Spare table key i = λ k p held. let b = held.0 in cc in
        let own : is_occupied e ≡ true → e.key ≡ key = λ p. refl in
        let one_in : one (is_occupied (old n)) ≡ 1 = ap one busy in
        let none_out : one (is_occupied (table i)) ≡ 0 = ap one st in
        record {
          sound =
              Sound-put cap table key i e h spare own (now.sound) refl
                (λ j p _ there. nowhere j p there) way;
          counted = omega (
            arith,
            now.counted,
            count-suc is_occupied n old,
            count-put is_occupied cap i table e h,
          );
          no_tombs = omega (arith, now.no_tombs, count-put is_tombstone cap i table e h);
          kept = λ k o finds. elim (ℕ_discrete k key) [
            | yes mine ↦
                let value = Finds-last n k o inside (busy, sym mine) finds in
                rw (mine, value) (Finds-put_same cap table key i e h spare own refl)
            | no other ↦
                Finds-put cap table key i e h spare own k o other
                  (now.kept k o (Finds-before n k o (λ held. other (sym (held.1))) finds))
          ];
        }

    move_entry-Moved :
        (n : ℕ) (table : Table)
        → n < old_cap
        → Moved cap n old table
        → Returns (move_entry cap (old n) table) (Moved cap (suc n) old)
    unfolding move_entry
    move_entry-Moved n table inside now = elim (State-cases ((old n).state)) [
      | inl st ↦ (table, rw st refl, Moved-skip n table (rw st refl) now)
      | inr (inr st) ↦ (table, rw st refl, Moved-skip n table (rw st refl) now)
      | inr (inl st) ↦
          let room : count is_occupied cap table < cap =
            omega (arith, now.counted, count-le is_occupied n old) in
          let (i, run, h, free, way) =
            reinsert-stores cap ((old n).key) ((old n).meta) table power room in
          (_, rw st run, Moved-store n i table inside (rw st refl) h free way now)
    ]

    nothing_before : (k : ℕ) (o : Option BigAllocMeta) → Finds 0 old k o → Finds cap zeroed k o
    nothing_before k o (found {i} p q) = absurd (omega arith)
    nothing_before k o (absent _) = Finds.absent (zeroed-NoKey cap k)

    zeroed-Moved : Moved cap 0 old zeroed
    unfolding count
    zeroed-Moved = record {
      sound = zeroed-Sound cap;
      counted = count-none is_occupied cap zeroed (λ i. refl);
      no_tombs = count-none is_tombstone cap zeroed (λ i. refl);
      kept = λ k o finds. nothing_before k o finds;
    }

    pub move_entries-Moved :
        (n : ℕ) → n ≤ old_cap → Returns (move_entries n cap old zeroed) (Moved cap n old)
    unfolding move_entries
    move_entries-Moved zero h = (zeroed, refl, zeroed-Moved)
    move_entries-Moved (suc n) h =
        let (t, run, now) = move_entries-Moved n (omega arith) in
        let (r, last, done) = move_entry-Moved n t (omega arith) now in
        (r, rw (run, ◌>>=◌) last, done)
