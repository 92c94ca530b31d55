-- ===== src/Abi/Align.antt =====
-- src/abi/align.rs, and the way back from an aligned pointer in src/abi/free.rs and src/abi/malloc.rs.
-- Memory is read and written in words of eight bytes at their addresses; `malloc` is an argument, by
-- the number of its call, and null is `none`.
pub mod Aligned
use oxidalloc.Prelude.{
  ℕ, zero, suc, ◌+◌, ◌-◌, ◌*◌, ◌%◌, ◌^◌, min, bit_and, Bool, true, false, ◌&&◌, ◌||◌, not, Option,
  none, some, ltb, leb, ◌==◌, if◌then◌else◌,
}
use oxidalloc.Outcome.{Outcome, ok, ◌>>=◌}
use oxidalloc.Abi.Calloc.{actual_size}
use oxidalloc.Prelude.Word.{complement, u64_max}

abbrev pub Memory : Type 0
Memory = ℕ → ℕ

abbrev pub write_word : Memory → (addr value : ℕ) → Memory
write_word m addr value p = if p == addr then value else m p

abbrev pub offset_size : ℕ
offset_size = 8

abbrev pub tag_size : ℕ
tag_size = offset_size * 2

-- the bytes of "OXIDALGN" as a number
abbrev pub align_tag : ℕ
align_tag = 0x4e474c414449584f

-- `is_power_of_two`, below `2 ^ n`
unfoldable pub power_below : (n : ℕ) → ℕ → Bool
power_below zero a = false
power_below (suc n) a = a == 2 ^ n || power_below n a

abbrev pub is_power_of_two : ℕ → Bool
is_power_of_two a = power_below 64 a

abbrev pub checked_add : ℕ → ℕ → Option ℕ
checked_add a b = if ltb (a + b) (2 ^ 64) then some (a + b) else none

abbrev pub saturating_add : ℕ → ℕ → ℕ
saturating_add a b = min (a + b) u64_max

-- the return values: 0, `EINVAL`, `NOMEM`
pub data Status : Type 0 where
  done : Status
  einval : Status
  nomem : Status

-- the place of the aligned bytes in an allocation at `raw`
unfoldable pub aligned_at : (raw alignment : ℕ) → ℕ
aligned_at raw alignment =
    let start_search = saturating_add raw tag_size in
    bit_and ((start_search + alignment - 1) % 2 ^ 64) (complement (alignment - 1))

-- the tag and the original pointer in front of the aligned bytes
abbrev pub tagged : Memory → (raw aligned : ℕ) → Memory
tagged m raw aligned =
    write_word (write_word m (aligned - tag_size) align_tag) (aligned - offset_size) raw

module _ (malloc : (call size : ℕ) → Option ℕ) where
  -- `malloc`, and once more if it gives null
  abbrev pub again : ℕ → Option ℕ → Option ℕ
  again size (some raw) = some raw
  again size none = malloc 1 size

  abbrev pub malloc_twice : ℕ → Option ℕ
  malloc_twice size = again size (malloc 0 size)

  abbrev pub place : (alignment : ℕ) → Memory → Option ℕ → Status × Option ℕ × Memory
  place alignment m none = (nomem, none, m)
  place alignment m (some raw) =
      let aligned = aligned_at raw alignment in (done, some aligned, tagged m raw aligned)

  -- `posix_memalign` of a place that is not null
  abbrev pub to_place : (alignment size : ℕ) → Memory → Status × Option ℕ × Memory
  to_place alignment size m =
      if ltb alignment 8 || not (is_power_of_two alignment)
      then (einval, none, m)
      else elim (checked_add size alignment) [
        | none ↦ (nomem, none, m)
        | some v ↦ elim (checked_add v tag_size) [
          | none ↦ (nomem, none, m)
          | some total ↦ place alignment m (malloc_twice total)
        ]
      ]

  -- the status, what is stored to `memptr`, and the memory
  unfoldable pub posix_memalign :
      (memptr_null : Bool) (alignment size : ℕ) → Memory → Status × Option ℕ × Memory
  posix_memalign memptr_null alignment size m =
      if memptr_null then (einval, none, m) else to_place alignment size m

  unfoldable pub memalign : (alignment size : ℕ) → Memory → Option ℕ × Memory
  memalign alignment size m =
      let adjusted = if ltb alignment 8 then 8 else alignment in
      if not (is_power_of_two adjusted)
      then (none, m)
      else (let (status, ptr, after) = posix_memalign false adjusted size m in
          elim status [ done ↦ (ptr, after) | _ ↦ (none, after) ])

  unfoldable pub aligned_alloc : (alignment size : ℕ) → Memory → Option ℕ × Memory
  aligned_alloc alignment size m =
      if alignment == 0 || not (is_power_of_two alignment)
      then (none, m)
      else memalign alignment size m

  unfoldable pub valloc : (size : ℕ) → Memory → Option ℕ × Memory
  valloc size m = memalign 4096 size m

-- the pointer that `malloc` gave, for a pointer of the program; `free`, `realloc` and
-- `malloc_usable_size` look for it in the same way
unfoldable pub raw_of : (is_ours : ℕ → Bool) → Memory → (ptr : ℕ) → ℕ
raw_of is_ours m ptr =
    let tag_loc = (ptr + 2 ^ 64 - tag_size) % 2 ^ 64 in
    let raw_loc = (ptr + 2 ^ 64 - offset_size) % 2 ^ 64 in
    if m tag_loc == align_tag && is_ours (m raw_loc) then m raw_loc else ptr

-- `fallback` is the size that the C library gives for a pointer that is not ours
module _ (is_ours : ℕ → Bool) (fallback : ℕ → ℕ) (class_at : (header : ℕ) → ℕ)
    (big_size : (header : ℕ) → Option ℕ) where
  unfoldable pub malloc_usable_size : Memory → (ptr : ℕ) → Outcome ℕ
  malloc_usable_size m ptr =
      if ptr == 0 then ok 0 else if not (is_ours ptr) then ok (fallback ptr) else (do
        let offset = (ptr + 2 ^ 64 - raw_of is_ours m ptr) % 2 ^ 64
        raw_usable ← actual_size class_at big_size (raw_of is_ours m ptr)
        ok (raw_usable - offset))
