-- ===== src/BigAllocMap/Table.antt =====
-- Writes into a table, and how many entries of it are in a state.
use oxidalloc.Prelude.{
  ℕ, zero, suc, ◌+◌, ◌≤◌, ◌<◌, ◌≡◌, ◌≢◌, refl, arith, Bool, true, false, if◌then◌else◌, ne→==,
  ℕ_discrete,
}
use oxidalloc.BigAllocMap.Defs.{State, Entry, Table, put}

abbrev pub is_occupied : Entry → Bool
is_occupied e = elim (e.state) [ State.occupied ↦ true | _ ↦ false ]

abbrev pub is_tombstone : Entry → Bool
is_tombstone e = elim (e.state) [ State.tombstone ↦ true | _ ↦ false ]

abbrev pub is_empty : Entry → Bool
is_empty e = elim (e.state) [ State.empty ↦ true | _ ↦ false ]

abbrev pub one : Bool → ℕ
one b = if b then 1 else 0

-- the entries below `n` that pass a test
unfoldable pub count : (Entry → Bool) → ℕ → Table → ℕ
count test zero table = 0
count test (suc n) table = one (test (table n)) + count test n table

pub count-suc :
    (test : Entry → Bool) (n : ℕ) (table : Table)
    → count test (suc n) table ≡ one (test (table n)) + count test n table
unfolding count
count-suc test n table = refl

pub put-same : (table : Table) (i : ℕ) (e : Entry) → put table i e i ≡ e
put-same table i e = ground arith

pub put-other : (table : Table) (i j : ℕ) (e : Entry) → j ≢ i → put table i e j ≡ table j
put-other table i j e h = let d = ne→== j i h in rw d

pub count-above :
    (test : Entry → Bool) (n i : ℕ) (table : Table) (e : Entry)
    → n ≤ i
    → count test n (put table i e) ≡ count test n table
unfolding count
count-above test zero i table e h = refl
count-above test (suc n) i table e h =
    rw (put-other table i n e (λ q. omega arith), count-above test n i table e (omega arith))

pub count-put :
    (test : Entry → Bool) (n i : ℕ) (table : Table) (e : Entry)
    → i < n
    → count test n (put table i e) + one (test (table i)) ≡ count test n table + one (test e)
unfolding count
count-put test zero i table e h = absurd (omega arith)
count-put test (suc n) i table e h = elim (ℕ_discrete n i) [
  | yes here ↦
      rw (here, put-same table i e, count-above test i i table e (omega arith)) (omega arith)
  | no other ↦
      rw (put-other table i n e other) (omega (arith, count-put test n i table e (omega arith)))
]

pub count-le : (test : Entry → Bool) (n : ℕ) (table : Table) → count test n table ≤ n
unfolding count
count-le test zero table = omega arith
count-le test (suc n) table = ground (arith, count-le test n table)

-- when all pass, all are counted
pub count-all :
    (test : Entry → Bool) (n : ℕ) (table : Table)
    → ((i : ℕ) → i < n → test (table i) ≡ true)
    → count test n table ≡ n
unfolding count
count-all test zero table all = refl
count-all test (suc n) table all =
    rw (all n (omega arith), count-all test n table (λ i h. all i (omega arith))) (omega arith)

pub count-none :
    (test : Entry → Bool) (n : ℕ) (table : Table)
    → ((i : ℕ) → test (table i) ≡ false)
    → count test n table ≡ 0
unfolding count
count-none test zero table all = refl
count-none test (suc n) table all = rw (all n, count-none test n table all) (omega arith)
