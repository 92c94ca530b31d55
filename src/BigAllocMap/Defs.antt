-- ===== src/BigAllocMap/Defs.antt =====
-- src/internals/hashmap.rs: `BigAllocMap` and its operations, each under its lock. `mmap` says for
-- each size whether the system gives that many bytes; they are zero, so every entry is empty.
use oxidalloc.Prelude.{
  ℕ, zero, suc, ◌+◌, ◌-◌, ◌*◌, ◌%◌, ◌^◌, max, bit_and, bit_xor, Bool, true, false, ◌&&◌, Option,
  none, some, ltb, leb, ◌==◌, if◌then◌else◌,
}
use oxidalloc.Prelude.Word.{◌>>>◌, u64_max}
use oxidalloc.Outcome.{Outcome, ok, panic, ◌>>=◌}

pub data State : Type 0 where
  empty : State
  occupied : State
  tombstone : State

pub record BigAllocMeta : Type 0 where
  pub size : ℕ
  pub class : ℕ
  pub life_time : ℕ
  pub flags : ℕ

pub record Entry : Type 0 where
  pub key : ℕ
  pub meta : BigAllocMeta
  pub state : State

abbrev pub Table : Type 0
Table = ℕ → Entry

-- `ptr`, null at first, is not null exactly when `cap` is not 0
pub record BigAllocMap : Type 0 where
  pub table : Table
  pub cap : ℕ
  pub len : ℕ
  pub tombstones : ℕ

abbrev pub initial_cap : ℕ
initial_cap = 16 * 1024

abbrev pub load_num : ℕ
load_num = 7

abbrev pub load_den : ℕ
load_den = 10

-- `size_of::<Entry>()`
abbrev pub entry_size : ℕ
entry_size = 40

unfoldable pub hash_key : ℕ → ℕ
hash_key key =
    let a = bit_xor key (key >>> 33) in
    let b = a * 0xff51afd7ed558ccd % 2 ^ 64 in
    let c = bit_xor b (b >>> 33) in let d = c * 0xc4ceb9fe1a85ec53 % 2 ^ 64 in bit_xor d (d >>> 33)

-- `hash_key(key) & (cap - 1)`
unfoldable pub home : (cap key : ℕ) → ℕ
home cap key = bit_and (hash_key key) (cap - 1)

-- `(idx + 1) & (cap - 1)`
unfoldable pub next : (cap idx : ℕ) → ℕ
next cap idx = bit_and (idx + 1) (cap - 1)

-- a write of the whole entry at an index
abbrev pub put : Table → ℕ → Entry → Table
put table idx entry j = if j == idx then entry else table j

abbrev pub occupy : ℕ → BigAllocMeta → Entry
occupy key meta = record { key = key; meta = meta; state = occupied }

-- a new key at a tombstone or at an empty entry
abbrev pub add_at :
    (target : ℕ) (over_tomb : Bool) (key : ℕ) (meta : BigAllocMeta) → BigAllocMap → BigAllocMap
add_at target over_tomb key meta m = record m {
  table = put (m.table) target (occupy key meta);
  len = (m.len + 1) % 2 ^ 64;
  tombstones =
      if over_tomb then (if m.tombstones == 0 then u64_max else m.tombstones - 1) else m.tombstones;
}

abbrev pub place_new : Option ℕ → (idx key : ℕ) → BigAllocMeta → BigAllocMap → BigAllocMap
place_new (some t) idx key meta m = add_at t true key meta m
place_new none idx key meta m = add_at idx false key meta m

abbrev pub first_of : Option ℕ → ℕ → Option ℕ
first_of (some t) idx = some t
first_of none idx = some idx

-- the probe of `insert`, with `left` turns to go
unfoldable pub insert_from :
    (left idx : ℕ) (first_tomb : Option ℕ) (key : ℕ)
    → BigAllocMeta
    → BigAllocMap
    → Outcome BigAllocMap
insert_from zero idx first_tomb key meta m = elim first_tomb [
  | some t ↦ ok (add_at t true key meta m)
  | none ↦ panic
]
insert_from (suc left) idx first_tomb key meta m =
    let entry = m.table idx in
    let rest = insert_from left (next (m.cap) idx) first_tomb key meta m in
    let rest_tomb = insert_from left (next (m.cap) idx) (first_of first_tomb idx) key meta m in
    elim (entry.state) [
      | empty ↦ ok (place_new first_tomb idx key meta m)
      | tombstone ↦ rest_tomb
      | occupied ↦
          if entry.key == key
          then ok (record m { table = put (m.table) idx (record entry { meta = meta }) })
          else rest
    ]

-- the probe of `get`
unfoldable pub get_from : (left idx key : ℕ) → BigAllocMap → Option BigAllocMeta
get_from zero idx key m = none
get_from (suc left) idx key m =
    let entry = m.table idx in
    let rest = get_from left (next (m.cap) idx) key m in
    elim (entry.state) [
      | empty ↦ none
      | tombstone ↦ rest
      | occupied ↦ if entry.key == key then some (entry.meta) else rest
    ]

unfoldable pub get : BigAllocMap → ℕ → Option BigAllocMeta
get m key = if m.cap == 0 then none else get_from (m.cap) (home (m.cap) key) key m

abbrev pub remove_at : ℕ → BigAllocMap → BigAllocMap
remove_at idx m = record m {
  table = put (m.table) idx (record (m.table idx) { state = tombstone });
  len = if m.len == 0 then u64_max else m.len - 1;
  tombstones = (m.tombstones + 1) % 2 ^ 64;
}

-- the probe of `remove`
unfoldable pub remove_from : (left idx key : ℕ) → BigAllocMap → Option BigAllocMeta × BigAllocMap
remove_from zero idx key m = (none, m)
remove_from (suc left) idx key m =
    let entry = m.table idx in
    let rest = remove_from left (next (m.cap) idx) key m in
    elim (entry.state) [
      | empty ↦ (none, m)
      | tombstone ↦ rest
      | occupied ↦ if entry.key == key then (some (entry.meta), remove_at idx m) else rest
    ]

unfoldable pub remove : BigAllocMap → ℕ → Option BigAllocMeta × BigAllocMap
remove m key = if m.cap == 0 then (none, m) else remove_from (m.cap) (home (m.cap) key) key m

-- the probe of `reinsert`, in the table of `cap` entries that `grow` fills
unfoldable pub reinsert_from : (left idx cap key : ℕ) → BigAllocMeta → Table → Outcome Table
reinsert_from zero idx cap key meta table = panic
reinsert_from (suc left) idx cap key meta table =
    let rest = reinsert_from left (next cap idx) cap key meta table in
    elim ((table idx).state) [ occupied ↦ rest | _ ↦ ok (put table idx (occupy key meta)) ]

abbrev pub reinsert : (cap key : ℕ) → BigAllocMeta → Table → Outcome Table
reinsert cap key meta table = reinsert_from cap (home cap key) cap key meta table

-- entry `i` of the old table into the new one
unfoldable pub move_entry : (cap : ℕ) → Entry → Table → Outcome Table
move_entry cap entry table = elim (entry.state) [
  | occupied ↦ reinsert cap (entry.key) (entry.meta) table
  | _ ↦ ok table
]

-- the loop of `grow` over the first `n` entries of the old table
unfoldable pub move_entries : (n cap : ℕ) (old table : Table) → Outcome Table
move_entries zero cap old table = ok table
move_entries (suc n) cap old table =
    move_entries n cap old table >>= (λ t. move_entry cap (old n) t)

abbrev pub no_meta : BigAllocMeta
no_meta = record { size = 0; class = 0; life_time = 0; flags = 0 }

-- a table of zero bytes
abbrev pub zeroed : Table
zeroed j = record { key = 0; meta = no_meta; state = empty }

-- `BigAllocMap::new`
abbrev pub new : BigAllocMap
new = record { table = zeroed; cap = 0; len = 0; tombstones = 0 }

-- `new_cap` of `grow`: `old_cap.saturating_mul(2).max(INITIAL_CAP)`
abbrev pub grown_cap : ℕ → ℕ
grown_cap cap = max (if ltb u64_max (cap * 2) then u64_max else cap * 2) initial_cap

module _ (mmap : ℕ → Bool) where
  unfoldable pub alloc_raw : ℕ → Outcome Table
  alloc_raw cap = if mmap (cap * entry_size % 2 ^ 64) then ok zeroed else panic

  unfoldable pub alloc_table : ℕ → Outcome BigAllocMap
  alloc_table cap =
      alloc_raw cap >>= (λ t. ok (record { table = t; cap = cap; len = 0; tombstones = 0 }))

  unfoldable pub grow : BigAllocMap → Outcome BigAllocMap
  grow m =
      let new_cap = grown_cap (m.cap) in
      alloc_raw new_cap >>= (λ raw.
        move_entries (m.cap) new_cap (m.table) raw
        >>= (λ t. ok (record m { table = t; cap = new_cap; tombstones = 0 })))

  unfoldable pub ensure_capacity : BigAllocMap → Outcome BigAllocMap
  ensure_capacity m =
      if m.cap == 0
      then alloc_table initial_cap
      else if leb ((m.len + 1) * load_den % 2 ^ 64) (m.cap * load_num % 2 ^ 64)
          && leb (m.tombstones * 2 % 2 ^ 64) (m.cap)
      then ok m
      else grow m

  unfoldable pub insert : ℕ → BigAllocMeta → BigAllocMap → Outcome BigAllocMap
  insert key meta m =
      ensure_capacity m >>= (λ n. insert_from (n.cap) (home (n.cap) key) none key meta n)
