-- ===== src/Va/Words/Bits.antt =====
-- Words read as a row of bits, and what a change of words does to that row.
use oxidalloc.Prelude.{
  ℕ, ◌/◌, ◌%◌, ◌^◌, ◌<◌, ◌≡◌, refl, bit_or, Bool, true, false, ◌&&◌, ◌||◌, not, leb, ltb,
}
use oxidalloc.Prelude.Word.{
  bit, bit-and, bit-or, bit_and-lt, bit_or-lt, bit-complement, complement-lt,
}
use oxidalloc.Va.Words.{Words, and_not}

-- bit `i` of the row
abbrev pub bit_at : Words → ℕ → Bool
bit_at w i = bit (w (i / 64)) (i % 64)

abbrev pub within : ℕ → ℕ → ℕ → Bool
within lo hi i = leb lo i && ltb i hi

abbrev pub AreWords : Words → Type 0
AreWords w = (i : ℕ) → w i < 2 ^ 64

-- `change v mask` acts on each bit by `effect`, and leaves the bits outside the mask alone
pub record Acts (change : ℕ → ℕ → ℕ) (effect : Bool → Bool → Bool) : Type 0 where
  pub on_bit :
      (v m k : ℕ)
      → v < 2 ^ 64
      → m < 2 ^ 64
      → k < 64
      → bit (change v m) k ≡ effect (bit v k) (bit m k)
  pub keeps : (v m : ℕ) → v < 2 ^ 64 → m < 2 ^ 64 → change v m < 2 ^ 64
  pub idle : (b : Bool) → effect b false ≡ b

idle_or : (b : Bool) → (b || false) ≡ b
idle_or true = refl
idle_or false = refl

abbrev pub drop_bit : Bool → Bool → Bool
drop_bit b m = b && not m

idle_drop : (b : Bool) → drop_bit b false ≡ b
idle_drop true = refl
idle_drop false = refl

pub or_Acts : Acts bit_or ◌||◌
or_Acts = record {
  on_bit = λ v m k p q h. bit-or v m k;
  keeps = λ v m p q. bit_or-lt 64 v m p q;
  idle = idle_or;
}

and_not-bit : (v m k : ℕ) → m < 2 ^ 64 → k < 64 → bit (and_not v m) k ≡ drop_bit (bit v k) (bit m k)
and_not-bit v m k q h = rw (bit-and, bit-complement m k q h)

pub and_not-Acts : Acts and_not drop_bit
and_not-Acts = record {
  on_bit = λ v m k p q h. and_not-bit v m k q h;
  keeps = λ v m p q. bit_and-lt 64 v _ p (complement-lt m);
  idle = idle_drop;
}
