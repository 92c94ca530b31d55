-- ===== src/Va/Align.antt =====
-- src/va/mod.rs: `align_to`, for an alignment that is a power of two.
use native.Mathlib.Nat.{
  mul_comm, mul-mod_left, div-div-eq-div-mul, mod-eq_of_lt, mod-lt, div-add-mod,
}
use oxidalloc.Prelude.{
  ℕ, zero, suc, ◌+◌, ◌-◌, ◌*◌, ◌/◌, ◌%◌, ◌^◌, ◌≤◌, ◌<◌, ◌≡◌, refl, ap, sym, ◌∙◌, arith, Bool, true,
  false, ◌&&◌, not, bit_and, leb, ltb, Bool-cases, inl, inr,
}
use oxidalloc.Prelude.Word.{
  complement, complement-lt, bit, bit-and, bit-complement, bit_and-lt, bit_ext, bit_ones, bit_shift,
  two_pow_suc, two_pow_pos, two_pow_mono,
}

unfoldable pub align_to : ℕ → ℕ → ℕ
align_to size align = let al = align - 1 in bit_and ((size + al) % 2 ^ 64) (complement al)

bit_div : (k x j : ℕ) → bit (x / 2 ^ k) j ≡ bit x (j + k)
unfolding bit
bit_div zero x j =
    let e : x / 2 ^ 0 ≡ x = omega arith in let d : j + 0 ≡ j = omega arith in rw (e, d)
bit_div (suc k) x j =
    let e : x / 2 ^ suc k ≡ x / 2 / 2 ^ k =
      ap (λ (t : ℕ). x / t) (two_pow_suc k) ∙ sym (div-div-eq-div-mul x 2 (2 ^ k)) in
    let d : j + suc k ≡ suc (j + k) = omega arith in rw (e, d) (bit_div k (x / 2) j)

and_true : (b : Bool) → (b && not false) ≡ (true && b)
and_true true = refl
and_true false = refl

and_false : (b : Bool) → (b && not true) ≡ (false && b)
and_false true = refl
and_false false = refl

-- dropping the low `k` bits
pub and-complement_mask :
    (k x : ℕ) → k < 64 → x < 2 ^ 64 → bit_and x (complement (2 ^ k - 1)) ≡ x / 2 ^ k * 2 ^ k
and-complement_mask k x small h =
    let ones : 2 ^ k - 1 < 2 ^ 64 = omega (arith, two_pow_mono k 64 (omega arith)) in
    let whole : x / 2 ^ k * 2 ^ k ≤ x =
      omega (arith, div-add-mod x (2 ^ k), mul_comm (2 ^ k) (x / 2 ^ k)) in
    bit_ext 64 _ _ (bit_and-lt 64 x _ h (complement-lt _)) (omega arith) (λ j p.
      rw (bit-and, bit-complement (2 ^ k - 1) j ones p, bit_ones, bit_shift, bit_div)
        (elim (Bool-cases (leb k j)) [
          | inl high ↦
              let e : j - k + k ≡ j = ground arith in
              let n : ltb j k ≡ false = ground arith in rw (high, n, e) (and_true (bit x j))
          | inr low ↦ let n : ltb j k ≡ true = ground arith in rw (low, n) (and_false (bit x j))
        ]))

-- `align_to` gives the least multiple of `2 ^ k` from `size` on.
pub align_to_lem :
    (k size : ℕ)
    → k < 64
    → size + 2 ^ k ≤ 2 ^ 64
    → let r = align_to size (2 ^ k) in (r % 2 ^ k ≡ 0) × (size ≤ r) × (r < size + 2 ^ k)
unfolding align_to
align_to_lem k size small fits =
    let p = 2 ^ k in
    let t = size + (p - 1) in
    let pos : 0 < p = two_pow_pos k in
    let wrap : t % 2 ^ 64 ≡ t = mod-eq_of_lt (omega arith) in
    let e : bit_and (t % 2 ^ 64) (complement (p - 1)) ≡ t / p * p =
      ap (λ (y : ℕ). bit_and y (complement (p - 1))) wrap
      ∙ and-complement_mask k t small (omega arith) in
    let parts : t / p * p + t % p ≡ t = omega (arith, div-add-mod t p, mul_comm p (t / p)) in
    let less : t % p < p = mod-lt t pos in rw e (mul-mod_left (t / p) p, omega arith, omega arith)
