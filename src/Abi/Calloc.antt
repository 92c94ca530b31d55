-- ===== src/Abi/Calloc.antt =====
-- src/abi/calloc.rs: `calc_and_get` and `calloc`. `malloc` is an argument; so are the class that the
-- header in front of a pointer has, and the size that the table of large allocations has for a header.
pub mod Zeroes
use oxidalloc.Prelude.{
  ℕ, ◌+◌, ◌-◌, ◌*◌, ◌%◌, ◌^◌, min, Bool, true, false, ◌&&◌, Option, none, some, ltb, leb, ◌==◌,
  if◌then◌else◌,
}
use oxidalloc.Outcome.{Outcome, ok, panic, ◌>>=◌}
use oxidalloc.Slab.Classes.{num_size_classes, size_class, header_size}

abbrev pub Bytes : Type 0
Bytes = ℕ → ℕ

abbrev pub write_zeros : Bytes → (ptr count : ℕ) → Bytes
write_zeros b ptr count p = if leb ptr p && ltb p (ptr + count) then 0 else b p

-- a pointer or null, and whether `errno` is set to `NOMEM`
pub record Result : Type 0 where
  pub ptr : Option ℕ
  pub nomem : Bool

abbrev pub null : Bool → Result
null nomem = record { ptr = none; nomem = nomem }

-- `isize::MAX`, above which `Layout::array` fails
abbrev pub isize_max : ℕ
isize_max = 2 ^ 63 - 1

abbrev pub with_size : (size : ℕ) → Option ℕ → Option (ℕ × ℕ) × Bool
with_size size none = (none, false)
with_size size (some ptr) = (some (ptr, size), false)

module _ (class_at : (header : ℕ) → ℕ) (big_size : (header : ℕ) → Option ℕ) where
  -- the size that the allocation has
  unfoldable pub actual_size : (ptr : ℕ) → Outcome ℕ
  actual_size ptr =
      let header = ptr - header_size in
      if class_at header == 100
      then (elim (big_size header) [ none ↦ panic | some size ↦ ok size ])
      else if ltb (class_at header) num_size_classes
      then ok (size_class (class_at header))
      else panic

module _ (malloc : (size : ℕ) → Option ℕ) (class_at : (header : ℕ) → ℕ)
    (big_size : (header : ℕ) → Option ℕ) where
  -- the pointer with the size that was asked for, and whether the product overflows
  unfoldable pub calc_and_get : (size nmem : ℕ) → Option (ℕ × ℕ) × Bool
  calc_and_get size nmem =
      if ltb (nmem * size) (2 ^ 64)
      then (let effective_size = if nmem * size == 0 then 1 else nmem * size in
          with_size effective_size (malloc effective_size))
      else (none, true)

  abbrev pub zero_out : Bytes → Option (ℕ × ℕ) × Bool → Outcome (Result × Bytes)
  zero_out b (none, nomem) = ok (null nomem, b)
  zero_out b (some (ptr, effective_size), nomem) = do
    actual ← actual_size class_at big_size ptr
    ok (record { ptr = some ptr; nomem = nomem }, write_zeros b ptr (min actual effective_size))

  unfoldable pub calloc : (nmemb size : ℕ) → Bytes → Outcome (Result × Bytes)
  calloc nmemb size b =
      if ltb isize_max size then ok (null true, b) else zero_out b (calc_and_get size nmemb)
