-- ===== src/Va/Radix.antt =====
-- src/va/bitmap.rs: `Radix` and `RadixTree`, the map from chunks of 4 GiB of addresses to segments.
-- A segment's pointer is a number, null is 0; `mmap` says for which sizes the system gives memory.
pub mod Cells
pub mod Ranges
use oxidalloc.Prelude.{
  ℕ, zero, suc, ◌+◌, ◌-◌, ◌*◌, ◌/◌, min, bit_and, Bool, true, false, Option, none, some, leb, ◌==◌,
  if◌then◌else◌,
}
use oxidalloc.Prelude.Word.{◌>>>◌, u64_max}
use oxidalloc.Outcome.{Outcome, ok, panic, ◌>>=◌}

abbrev pub chunk_size : ℕ
chunk_size = 1024 * 1024 * 1024 * 4

abbrev pub l1_bits : ℕ
l1_bits = 12

abbrev pub l2_bits : ℕ
l2_bits = 13

abbrev pub l2_size : ℕ
l2_size = 8192

-- `1 << (L1_BITS + L2_BITS)`
abbrev pub radix_max_chunks : ℕ
radix_max_chunks = 33554432

abbrev pub Page : Type 0
Page = ℕ → ℕ

-- the pages of the second level, `none` where the pointer is null
pub record Radix : Type 0 where
  pub l1 : ℕ → Option Page

abbrev pub split : ℕ → ℕ × ℕ
split idx = (idx >>> l2_bits, bit_and idx (l2_size - 1))

abbrev pub store : Radix → (i : ℕ) → Page → (j seg : ℕ) → Radix
store r i page j seg = record {
  l1 = λ a. if a == i then some (λ b. if b == j then seg else page b) else r.l1 a;
}

unfoldable pub get : Radix → ℕ → Option ℕ
get r chunk_idx =
    if leb radix_max_chunks chunk_idx
    then none
    else let (i, j) = split chunk_idx in
      elim (r.l1 i) [ none ↦ none | some page ↦ if page j == 0 then none else some (page j) ]

abbrev pub get_segment : Radix → ℕ → Option ℕ
get_segment r addr = get r (addr / chunk_size)

-- `start.saturating_add(size.saturating_sub(1)) / CHUNK_SIZE`
abbrev pub last_chunk : (start size : ℕ) → ℕ
last_chunk start size = min (start + (size - 1)) u64_max / chunk_size

-- `for i in start_idx..=end_idx`, with `left` chunks to go
unfoldable pub collides_from : (left chunk : ℕ) → Radix → Bool
collides_from zero chunk r = false
collides_from (suc left) chunk r =
    let rest = collides_from left (chunk + 1) r in
    elim (get r chunk) [ some _ ↦ true | none ↦ rest ]

unfoldable pub check_collision : Radix → (start size : ℕ) → Bool
check_collision r start size =
    let start_idx = start / chunk_size in
    let end_idx = last_chunk start size in
    if leb radix_max_chunks end_idx
    then true
    else collides_from (end_idx + 1 - start_idx) start_idx r

module _ (mmap : ℕ → Bool) where
  unfoldable pub map_memory : ℕ → Outcome Page
  map_memory size = if mmap size then ok (λ j. 0) else panic

  unfoldable pub set : (chunk_idx seg : ℕ) → Radix → Outcome Radix
  set chunk_idx seg r =
      if leb radix_max_chunks chunk_idx
      then ok r
      else let (i, j) = split chunk_idx in
        elim (r.l1 i) [
          | some page ↦ ok (store r i page j seg)
          | none ↦ map_memory (l2_size * 8) >>= (λ page. ok (store r i page j seg))
        ]

  -- `for i in 0..count`, from `chunk` on
  unfoldable pub set_from : (count chunk seg : ℕ) → Radix → Outcome Radix
  set_from zero chunk seg r = ok r
  set_from (suc count) chunk seg r = set chunk seg r >>= set_from count (chunk + 1) seg

  unfoldable pub set_range : (start size seg : ℕ) → Radix → Outcome Radix
  set_range start size seg r =
      let start_idx = start / chunk_size in
      let end_idx = last_chunk start size in set_from (end_idx - start_idx + 1) start_idx seg r
