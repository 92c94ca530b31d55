-- ===== src/Prelude/Word/Defs.antt =====
-- The operators on words, and the bit of a word at a place.
use Prim.Native.Nat.{ℕ, zero, suc, ◌-◌, ◌*◌, ◌/◌, ◌%◌, ◌^◌}
use mathlib.Core.Bool.{Bool}
use oxidalloc.Prelude.Tests.{◌==◌, if◌then◌else◌}

-- `u64::MAX`
abbrev pub u64_max : ℕ
u64_max = 2 ^ 64 - 1

infixl 75 ◌<<<◌ ◌>>>◌
-- `x << k`: the bits above the word are lost
abbrev pub ◌<<<◌ : ℕ → ℕ → ℕ
x <<< k = x * 2 ^ k % 2 ^ 64

-- `x >> k`
abbrev pub ◌>>>◌ : ℕ → ℕ → ℕ
x >>> k = x / 2 ^ k

-- `!x`
unfoldable pub complement : ℕ → ℕ
complement x = u64_max - x

-- bit `k` of `x`
unfoldable pub bit : ℕ → ℕ → Bool
bit x zero = x % 2 == 1
bit x (suc k) = bit (x / 2) k

unfoldable pub count_zeros : ℕ → ℕ → ℕ
count_zeros zero x = 0
count_zeros (suc n) x = if x % 2 == 1 then 0 else suc (count_zeros n (x / 2))

-- `x.trailing_zeros()`, 64 at 0
unfoldable pub trailing_zeros : ℕ → ℕ
unfolding count_zeros
trailing_zeros x = count_zeros 64 x
