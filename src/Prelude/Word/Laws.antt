-- ===== src/Prelude/Word/Laws.antt =====
-- Words and their bits: two words with the same bits are the same word; the bits of a complement,
-- of a shift and of a row of ones.
use Prim.Native.Nat.{ℕ, zero, suc, ◌+◌, ◌-◌, ◌*◌, ◌/◌, ◌%◌, ◌^◌, ◌≤◌, ◌<◌}
use mathlib.Core.Path.{◌≡◌, sym, ap}
use mathlib.Core.Bool.{false, ◌&&◌, not}
use native.Mathlib.Omega.{arith}
use native.Mathlib.Nat.{
  pow-suc, one-le-pow, div-add-mod, mod-lt, mod-eq_of_lt, mul-add-mod_self_left,
}
use oxidalloc.Prelude.Tests.{ltb, leb}
use oxidalloc.Prelude.Word.Defs.{bit}
use oxidalloc.Prelude.Word.Native.{bit_zero}

pub two_pow_suc : (n : ℕ) → 2 ^ suc n ≡ 2 * 2 ^ n
two_pow_suc n = omega (arith, pow-suc 2 n)

pub two_pow_pos : (n : ℕ) → 0 < 2 ^ n
two_pow_pos n = one-le-pow n 2 (omega arith)

pub two_pow_mono : (a b : ℕ) → a ≤ b → 2 ^ a ≤ 2 ^ b
two_pow_mono zero b h = two_pow_pos b
two_pow_mono (suc a) zero h = absurd (omega arith)
two_pow_mono (suc a) (suc b) h =
    omega (arith, two_pow_suc a, two_pow_suc b, two_pow_mono a b (omega arith))

pub bit_ext : (n x y : ℕ) → x < 2 ^ n → y < 2 ^ n → ((k : ℕ) → k < n → bit x k ≡ bit y k) → x ≡ y
unfolding bit
bit_ext zero x y p q same = omega arith
bit_ext (suc n) x y p q same =
    let half =
      bit_ext n (x / 2) (y / 2) (omega (arith, two_pow_suc n)) (omega (arith, two_pow_suc n))
        (λ k h. same (suc k) (omega arith)) in
    ground (arith, half, same 0)

-- `2 ^ n - 1 - x` turns each of the low `n` bits
pub bit_flip : (n x k : ℕ) → x < 2 ^ n → k < n → bit (2 ^ n - 1 - x) k ≡ not (bit x k)
unfolding bit
bit_flip zero x k p h = absurd (omega arith)
bit_flip (suc n) x zero p h = ground (arith, two_pow_suc n, two_pow_pos n)
bit_flip (suc n) x (suc k) p h =
    let e : (2 ^ suc n - 1 - x) / 2 ≡ 2 ^ n - 1 - x / 2 = omega (arith, two_pow_suc n) in
    rw e (bit_flip n (x / 2) k (omega (arith, two_pow_suc n)) (omega arith))

-- the bits of `x % 2 ^ suc n` below and above the lowest
mod-two_pow : (n x : ℕ) → (x % 2 ^ suc n % 2 ≡ x % 2) × (x % 2 ^ suc n / 2 ≡ x / 2 % 2 ^ n)
mod-two_pow n x =
    let q = x / 2 ^ suc n in
    let r = x % 2 ^ suc n in
    let whole : 2 * (2 ^ n * q) + r ≡ x =
      omega (arith, div-add-mod x (2 ^ suc n), ap (λ (t : ℕ). t * q) (two_pow_suc n)) in
    let less : r < 2 * 2 ^ n = omega (arith, two_pow_suc n, mod-lt x (two_pow_pos (suc n))) in
    let half : x / 2 ≡ 2 ^ n * q + r / 2 = omega arith in
    (
      omega arith,
      rw (half, mul-add-mod_self_left (2 ^ n) q (r / 2)) (sym (mod-eq_of_lt (omega arith))),
    )

-- the low `n` bits of a number
pub bit_low : (n x k : ℕ) → k < n → bit (x % 2 ^ n) k ≡ bit x k
unfolding bit
bit_low zero x k h = absurd (omega arith)
bit_low (suc n) x zero h = rw (mod-two_pow n x).0
bit_low (suc n) x (suc k) h = rw (mod-two_pow n x).1 (bit_low n (x / 2) k (omega arith))

-- a row of `n` ones
pub bit_ones : (n k : ℕ) → bit (2 ^ n - 1) k ≡ ltb k n
unfolding bit
bit_ones zero k = rw bit_zero (ground arith)
bit_ones (suc n) zero = ground (arith, two_pow_suc n, two_pow_pos n)
bit_ones (suc n) (suc k) =
    let e : (2 ^ suc n - 1) / 2 ≡ 2 ^ n - 1 = omega (arith, two_pow_suc n) in
    rw (e, bit_ones n k) (ground arith)

pub bit_shift : (s x k : ℕ) → bit (x * 2 ^ s) k ≡ (leb s k && bit x (k - s))
unfolding bit
bit_shift zero x k =
    let e : x * 2 ^ 0 ≡ x = omega arith in
    let d : k - 0 ≡ k = omega arith in rw (e, d) (ground arith)
bit_shift (suc s) x zero =
    let e : x * 2 ^ suc s % 2 ≡ 0 = omega (arith, ap (λ (t : ℕ). x * t) (two_pow_suc s)) in
    let f : leb (suc s) 0 ≡ false = ground arith in rw (e, f)
bit_shift (suc s) x (suc k) =
    let e : x * 2 ^ suc s / 2 ≡ x * 2 ^ s = omega (arith, ap (λ (t : ℕ). x * t) (two_pow_suc s)) in
    let d : suc k - suc s ≡ k - s = omega arith in rw (e, d, bit_shift s x k) (ground arith)
