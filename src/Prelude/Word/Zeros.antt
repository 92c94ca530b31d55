-- ===== src/Prelude/Word/Zeros.antt =====
-- `trailing_zeros` of a word that is not 0 is the place of its lowest set bit.
use Prim.Native.Nat.{ℕ, zero, suc, ◌/◌, ◌%◌, ◌^◌, ◌<◌}
use mathlib.Core.Path.{◌≡◌}
use mathlib.Core.Bool.{true, false}
use mathlib.Core.Logic.{inl, inr}
use native.Mathlib.Omega.{arith}
use oxidalloc.Prelude.Tests.{◌==◌, Bool-cases}
use oxidalloc.Prelude.Word.Defs.{bit, count_zeros, trailing_zeros}
use oxidalloc.Prelude.Word.Laws.{two_pow_suc}

count_zeros_lem :
    (n x : ℕ)
    → x < 2 ^ n
    → 0 < x
    → (count_zeros n x < n)
      × (bit x (count_zeros n x) ≡ true)
      × ((j : ℕ) → j < count_zeros n x → bit x j ≡ false)
unfolding count_zeros bit
count_zeros_lem zero x p h = absurd (omega arith)
count_zeros_lem (suc n) x p h = elim (Bool-cases (x % 2 == 1)) [
  | inl odd ↦ rw odd (omega arith, odd, λ j lt. elim lt [ ])
  | inr even ↦
      let (less, set, clear) =
        count_zeros_lem n (x / 2) (omega (arith, two_pow_suc n)) (ground arith) in
      rw even (omega arith, set, elim [ zero ↦ λ _. even | suc j ↦ λ lt. clear j (omega arith) ])
]

pub trailing_zeros_lem :
    (x : ℕ)
    → x < 2 ^ 64
    → 0 < x
    → (trailing_zeros x < 64)
      × (bit x (trailing_zeros x) ≡ true)
      × ((j : ℕ) → j < trailing_zeros x → bit x j ≡ false)
unfolding trailing_zeros
trailing_zeros_lem x p h = count_zeros_lem 64 x p h
