-- ===== src/Prelude/Word/Mask.antt =====
-- Shifts and tests of words that fit 64 bits.
use Prim.Native.Nat.{ℕ, zero, suc, ◌-◌, ◌*◌, ◌/◌, ◌%◌, ◌^◌, ◌≤◌, ◌<◌, bit_and}
use mathlib.Core.Path.{◌≡◌, ◌∙◌}
use mathlib.Core.Bool.{true, false, ◌&&◌, not}
use mathlib.Core.Logic.{inl, inr}
use native.Mathlib.Omega.{arith}
use native.Mathlib.Nat.{mod-eq_of_lt, mod-lt}
use Prim.Native.Nat.{◌+◌}
use oxidalloc.Prelude.Tests.{ltb, leb, ◌==◌, Bool-cases, ltb→lt, not_ltb→le}
use oxidalloc.Prelude.Word.Defs.{u64_max, ◌<<<◌, complement, bit}
use oxidalloc.Prelude.Word.Native.{bit_zero, bit-and, bit_and-lt}
use oxidalloc.Prelude.Word.Laws.{
  two_pow_suc, two_pow_pos, two_pow_mono, bit_ext, bit_flip, bit_low, bit_ones, bit_shift,
}

pub one-shl : (b : ℕ) → b < 64 → 1 <<< b ≡ 2 ^ b
one-shl b h =
    let e : 1 * 2 ^ b ≡ 2 ^ b = omega arith in
    rw e (mod-eq_of_lt (omega (arith, two_pow_pos b, two_pow_suc b, two_pow_mono (suc b) 64 h)))

pub bit_shl : (x s k : ℕ) → k < 64 → bit (x <<< s) k ≡ (leb s k && bit x (k - s))
bit_shl x s k h = bit_low 64 (x * 2 ^ s) k h ∙ bit_shift s x k

pub bit_one : (k : ℕ) → bit 1 k ≡ (k == 0)
bit_one k = rw (bit_ones 1 k) (ground arith)

pub bit-complement : (x k : ℕ) → x < 2 ^ 64 → k < 64 → bit (complement x) k ≡ not (bit x k)
unfolding complement
bit-complement x k p h = bit_flip 64 x k p h

pub complement-lt : (x : ℕ) → complement x < 2 ^ 64
unfolding complement
complement-lt x = omega arith

pub bit-u64_max : (k : ℕ) → bit u64_max k ≡ ltb k 64
bit-u64_max k = bit_ones 64 k

-- `x & m == 0` exactly when no bit of `m` is set in `x`
pub and-eq-zero :
    (x m : ℕ)
    → x < 2 ^ 64
    → m < 2 ^ 64
    → ((k : ℕ) → k < 64 → bit m k ≡ true → bit x k ≡ false)
    → bit_and x m ≡ 0
and-eq-zero x m p q clear =
    bit_ext 64 (bit_and x m) 0 (bit_and-lt 64 x m p q) (omega arith)
      (λ k h. rw (bit-and, bit_zero) (ground (arith, clear k h)))

pub clear_of_and : (x m k : ℕ) → bit_and x m ≡ 0 → bit m k ≡ true → bit x k ≡ false
clear_of_and x m k e h = ground (arith, bit-and x m k, bit_zero k)

-- a word below `u64::MAX` is one with a bit clear
pub full_bits : (x : ℕ) → x < 2 ^ 64 → ((k : ℕ) → k < 64 → bit x k ≡ true) → x ≡ u64_max
full_bits x p all =
    bit_ext 64 x u64_max p (omega arith) (λ k h. rw (all k h, bit-u64_max) (ground arith))

-- the word with one bit set
pub bit_one-shl : (k j : ℕ) → k < 64 → j < 64 → bit (1 <<< k) j ≡ (j == k)
bit_one-shl k j h p = rw (bit_shl 1 k j p, bit_one) (ground arith)

-- the test of one bit, `x & (1 << k) != 0`
pub test_bit : (x k : ℕ) → x < 2 ^ 64 → k < 64 → bit_and x (1 <<< k) == 0 ≡ not (bit x k)
test_bit x k p h = elim (Bool-cases (bit x k)) [
  | inl set ↦ rw set (ground (arith, clear_of_and x (1 <<< k) k, bit_one-shl k k h h))
  | inr clear ↦ rw clear (
      ground (
        arith,
        and-eq-zero x (1 <<< k) p (omega arith)
            (λ j q e. ground (arith, bit_one-shl k j h q, clear)),
      ))
]

bit_high : (n x k : ℕ) → x < 2 ^ n → n ≤ k → bit x k ≡ false
unfolding bit
bit_high zero x k p h = let e : x ≡ 0 = omega arith in rw e (bit_zero k)
bit_high (suc n) x zero p h = absurd (omega arith)
bit_high (suc n) x (suc k) p h = bit_high n (x / 2) k (omega (arith, two_pow_suc n)) (omega arith)

lt_two_pow : (x : ℕ) → x < 2 ^ x
lt_two_pow zero = omega arith
lt_two_pow (suc x) = omega (arith, lt_two_pow x, two_pow_suc x)

-- the low `k` bits of a number
pub and_mask : (k x : ℕ) → bit_and x (2 ^ k - 1) ≡ x % 2 ^ k
and_mask k x =
    let n = x + k in
    let less = mod-lt x (two_pow_pos k) in
    let wide : x < 2 ^ n = omega (arith, lt_two_pow x, two_pow_mono x n (omega arith)) in
    let mask : 2 ^ k - 1 < 2 ^ n = omega (arith, two_pow_mono k n (omega arith), two_pow_pos k) in
    bit_ext n _ _ (bit_and-lt n x _ wide mask) (omega (arith, less, two_pow_mono k n (omega arith)))
      (λ j p.
        rw (bit-and, bit_ones)
          (elim (Bool-cases (ltb j k)) [
            | inl low ↦ rw (low, bit_low k x j (ltb→lt _ _ low)) (ground arith)
            | inr high ↦ rw (high, bit_high k _ j less (not_ltb→le _ _ high)) (ground arith)
          ]))
