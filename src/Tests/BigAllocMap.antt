-- ===== src/Tests/BigAllocMap.antt =====
-- A table of four entries in which two keys with the same home stand one after the other, and the
-- map before its first use.
use oxidalloc.Prelude.{
  ℕ, zero, suc, ◌≡◌, ◌<◌, ◌^◌, refl, sym, subst, arith, Bool, true, false, inr, some, ltb,
}
use oxidalloc.BigAllocMap.Defs.{
  BigAllocMeta, BigAllocMap, occupy, add_at, get_from, next, zeroed, get, insert, remove, hash_key,
  home,
}
use oxidalloc.BigAllocMap.Table.{is_occupied, is_tombstone, count-none, put-other}
use oxidalloc.BigAllocMap.Order.{Reach, NoKey, Finds}
use oxidalloc.BigAllocMap.Lookup.{IsValid, get-Finds}
use oxidalloc.BigAllocMap.Grow.{zeroed-Sound, zeroed-NoKey}
use oxidalloc.BigAllocMap.Remove.{Removes, remove-Removes}
use oxidalloc.BigAllocMap.Written.{added-IsValid}
use oxidalloc.BigAllocMap.Refine.{Inserts, insert-Inserts}

abbrev bare : BigAllocMap
bare = record { table = zeroed; cap = 4; len = 0; tombstones = 0 }

abbrev meta_of : ℕ → BigAllocMeta
meta_of size = record { size = size; class = 100; life_time = 0; flags = 0 }

abbrev single : BigAllocMap
single = add_at 0 false 0x3000 (meta_of 3000000) bare

abbrev pub pair : BigAllocMap
pair = add_at 1 false 0x5000 (meta_of 5000000) single

bare-IsValid : IsValid bare
bare-IsValid = record {
  shape = inr (2, omega arith, refl);
  bounded = omega arith;
  sound = zeroed-Sound 4;
  counted = sym (count-none is_occupied 4 zeroed (λ i. refl));
  buried = sym (count-none is_tombstone 4 zeroed (λ i. refl));
}

home_first : home 4 0x3000 ≡ 0
unfolding home hash_key
home_first = refl

home_second : home 4 0x5000 ≡ 0
unfolding home hash_key
home_second = refl

way_first : Reach 4 (bare.table) 0x3000 0
way_first = record {
  turns = 0;
  less = omega arith;
  stop = rw home_first refl;
  full = λ s h. absurd (omega arith);
}

single-IsValid : IsValid single
single-IsValid =
    added-IsValid bare 0x3000 0 (meta_of 3000000) bare-IsValid (omega arith) false way_first
      (zeroed-NoKey 4 0x3000) refl refl

way_second : Reach 4 (single.table) 0x5000 1
way_second = record {
  turns = 1;
  less = omega arith;
  stop = rw home_second refl;
  full = λ s h. let e : s ≡ 0 = omega arith in rw (e, home_second) refl;
}

second_new : NoKey 4 (single.table) 0x5000
second_new zero h held = let k = held.1 in absurd (omega arith)
second_new (suc i) h held =
    let other = put-other zeroed 0 (suc i) (occupy 0x3000 (meta_of 3000000)) (λ q. omega arith) in
    let b = subst (λ t. is_occupied t ≡ true) other (held.0) in cc

pub pair-IsValid : IsValid pair
pair-IsValid =
    added-IsValid single 0x5000 1 (meta_of 5000000) single-IsValid (omega arith) false way_second
      second_new refl refl

run : get pair 0x5000 ≡ some (meta_of 5000000)
unfolding get get_from home hash_key next
run = refl

abbrev pub mmap : ℕ → Bool
mmap size = ltb size (2 ^ 47)

pub mmap_fits : (size : ℕ) → mmap size ≡ true → size < 2 ^ 47
mmap_fits size h = ground arith

get-Finds_example : Finds 4 (pair.table) 0x5000 (get pair 0x5000)
get-Finds_example = get-Finds pair pair-IsValid 0x5000

remove-Removes_example : Removes pair 0x3000 (remove pair 0x3000)
remove-Removes_example = remove-Removes pair pair-IsValid 0x3000

insert-Inserts_example : Inserts mmap 0x6000 (meta_of 7) pair (insert mmap 0x6000 (meta_of 7) pair)
insert-Inserts_example = insert-Inserts mmap mmap_fits pair pair-IsValid 0x6000 (meta_of 7)
