-- ===== src/Prelude/Word/Native.antt =====
-- The native `bit_and` and `bit_or` act bit by bit. They stand for `digits`, a recursion on binary
-- digits with a count of digits to go; one lemma serves both.
use Prim.Native.Nat.{
  ℕ, zero, suc, ◌+◌, ◌*◌, ◌/◌, ◌%◌, ◌^◌, ◌≤◌, ◌<◌, min, max, digits, bit_and, bit_or, bit_xor,
  differ, bit_and-bitwise, bit_or-bitwise, bit_xor-bitwise,
}
use mathlib.Core.Path.{◌≡◌, refl}
use mathlib.Core.Bool.{Bool, false, not, ◌&&◌, ◌||◌}
use native.Mathlib.Omega.{arith}
use native.Mathlib.Nat.{pow-suc}
use oxidalloc.Prelude.Tests.{◌==◌, if◌then◌else◌}
use oxidalloc.Prelude.Word.Defs.{bit}

pub bit_zero : (k : ℕ) → bit 0 k ≡ false
unfolding bit
bit_zero zero = refl
bit_zero (suc k) = bit_zero k

module _ (edge : ℕ → ℕ) (digit : ℕ → ℕ → ℕ) (op : Bool → Bool → Bool)
    (small : (x y : ℕ) → x < 2 → y < 2 → digit x y < 2)
    (on_digit : (x y : ℕ) → x < 2 → y < 2 → (digit x y == 1) ≡ op (x == 1) (y == 1))
    (on_edge : (b k : ℕ) → bit (edge b) k ≡ op false (bit b k)) where
  bit-digits : (k n a b : ℕ) → a ≤ n → bit (digits edge digit n a b) k ≡ op (bit a k) (bit b k)
  unfolding bit
  bit-digits k zero zero b fits = rw bit_zero (on_edge b k)
  bit-digits k zero (suc a) b fits = elim fits [ ]
  bit-digits k (suc n) zero b fits = rw bit_zero (on_edge b k)
  bit-digits zero (suc n) (suc a) b fits =
      let rest = digits edge digit n (suc a / 2) (b / 2) in
      let low = digit (suc a % 2) (b % 2) in
      let lt = small (suc a % 2) (b % 2) (omega arith) (omega arith) in
      let e : (rest * 2 + low) % 2 ≡ low = omega (arith, lt) in
      rw e (on_digit (suc a % 2) (b % 2) (omega arith) (omega arith))
  bit-digits (suc k) (suc n) (suc a) b fits =
      let rest = digits edge digit n (suc a / 2) (b / 2) in
      let low = digit (suc a % 2) (b % 2) in
      let lt = small (suc a % 2) (b % 2) (omega arith) (omega arith) in
      let e : (rest * 2 + low) / 2 ≡ rest = omega (arith, lt) in
      rw e (bit-digits k n (suc a / 2) (b / 2) (omega arith))

  digits-lt :
      ((m b : ℕ) → b < 2 ^ m → edge b < 2 ^ m)
      → (m n a b : ℕ) → a ≤ n
      → a < 2 ^ m
      → b < 2 ^ m
      → digits edge digit n a b < 2 ^ m
  digits-lt edge-lt m zero zero b fits p q = edge-lt m b q
  digits-lt edge-lt m zero (suc a) b fits p q = elim fits [ ]
  digits-lt edge-lt m (suc n) zero b fits p q = edge-lt m b q
  digits-lt edge-lt zero (suc n) (suc a) b fits p q = absurd (omega arith)
  digits-lt edge-lt (suc m) (suc n) (suc a) b fits p q = omega (
    arith,
    pow-suc 2 m,
    small (suc a % 2) (b % 2) (omega arith) (omega arith),
    digits-lt edge-lt m n (suc a / 2) (b / 2) (omega arith) (omega (arith, pow-suc 2 m))
        (omega (arith, pow-suc 2 m)),
  )

-- `a & b` at a place
pub bit-and : (a b k : ℕ) → bit (bit_and a b) k ≡ (bit a k && bit b k)
bit-and a b k = rw (bit_and-bitwise a b) (
    bit-digits (λ _. 0) min ◌&&◌ (λ x y p q. omega arith) (λ x y p q. ground arith)
      (λ b k. bit_zero k) k a a b (omega arith))

-- `a | b` at a place
pub bit-or : (a b k : ℕ) → bit (bit_or a b) k ≡ (bit a k || bit b k)
bit-or a b k = rw (bit_or-bitwise a b) (
    bit-digits (λ b. b) max ◌||◌ (λ x y p q. omega arith) (λ x y p q. ground arith) (λ b k. refl) k
      a a b (omega arith))

pub bit_and-lt : (m a b : ℕ) → a < 2 ^ m → b < 2 ^ m → bit_and a b < 2 ^ m
bit_and-lt m a b p q = rw (bit_and-bitwise a b) (
    digits-lt (λ _. 0) min ◌&&◌ (λ x y p q. omega arith) (λ x y p q. ground arith)
      (λ b k. bit_zero k) (λ m b h. omega arith) m a a b (omega arith) p q)

pub bit_or-lt : (m a b : ℕ) → a < 2 ^ m → b < 2 ^ m → bit_or a b < 2 ^ m
bit_or-lt m a b p q = rw (bit_or-bitwise a b) (
    digits-lt (λ b. b) max ◌||◌ (λ x y p q. omega arith) (λ x y p q. ground arith) (λ b k. refl)
      (λ m b h. h) m a a b (omega arith) p q)

abbrev xor : Bool → Bool → Bool
xor a b = if a then not b else b

differ-lt : (x y : ℕ) → x < 2 → y < 2 → differ x y < 2
differ-lt zero y p q = q
differ-lt (suc zero) zero p q = omega arith
differ-lt (suc zero) (suc zero) p q = omega arith
differ-lt (suc zero) (suc (suc y)) p q = absurd (omega arith)
differ-lt (suc (suc x)) y p q = absurd (omega arith)

differ-xor : (x y : ℕ) → x < 2 → y < 2 → (differ x y == 1) ≡ xor (x == 1) (y == 1)
differ-xor zero y p q = refl
differ-xor (suc zero) zero p q = refl
differ-xor (suc zero) (suc zero) p q = refl
differ-xor (suc zero) (suc (suc y)) p q = absurd (omega arith)
differ-xor (suc (suc x)) y p q = absurd (omega arith)

pub bit_xor-lt : (m a b : ℕ) → a < 2 ^ m → b < 2 ^ m → bit_xor a b < 2 ^ m
bit_xor-lt m a b p q = rw (bit_xor-bitwise a b) (
    digits-lt (λ b. b) differ xor differ-lt differ-xor (λ b k. refl) (λ m b h. h) m a a b
      (omega arith) p q)
