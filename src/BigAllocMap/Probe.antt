-- ===== src/BigAllocMap/Probe.antt =====
-- The places that the probes of src/internals/hashmap.rs visit.
use native.Mathlib.Nat.{mod-lt, mod-eq_of_lt, mod-add-mod, add-mod_right}
use oxidalloc.Prelude.{ℕ, ◌+◌, ◌-◌, ◌%◌, ◌^◌, ◌<◌, ◌≡◌, sym, ap, ◌∙◌, arith, dec_lt}
use oxidalloc.Prelude.Word.{and_mask, bit_xor-lt, two_pow_pos}
use oxidalloc.BigAllocMap.Defs.{hash_key, home, next}

abbrev pub PowerOfTwo : ℕ → Type 0
PowerOfTwo cap = (k : ℕ) × (k < 64) × (cap ≡ 2 ^ k)

-- where the probe of a key stands after `s` turns
abbrev pub slot : (cap key s : ℕ) → ℕ
slot cap key s = (home cap key + s) % cap

hash_key-lt : (key : ℕ) → hash_key key < 2 ^ 64
unfolding hash_key
hash_key-lt key = bit_xor-lt 64 _ _ (omega arith) (omega arith)

module _ (cap : ℕ) (power : PowerOfTwo cap) where
  pub cap-pos : 0 < cap
  cap-pos = omega (arith, two_pow_pos power.0)

  pub home-lt : (key : ℕ) → home cap key < cap
  unfolding home
  home-lt key =
      let (k, small, e) = power in rw (e, and_mask k (hash_key key)) (mod-lt _ (two_pow_pos k))

  pub slot-lt : (key s : ℕ) → slot cap key s < cap
  slot-lt key s = mod-lt _ cap-pos

  pub slot-zero : (key : ℕ) → home cap key ≡ slot cap key 0
  slot-zero key =
      let e : home cap key + 0 ≡ home cap key = omega arith in
      rw e (sym (mod-eq_of_lt (home-lt key)))

  next-mod : (idx : ℕ) → idx < cap → next cap idx ≡ (idx + 1) % cap
  unfolding next
  next-mod idx h = let (k, small, e) = power in rw e (and_mask k (idx + 1))

  pub next-slot : (key s : ℕ) → next cap (slot cap key s) ≡ slot cap key (s + 1)
  next-slot key s =
      next-mod (slot cap key s) (slot-lt key s)
      ∙ mod-add-mod (home cap key + s) cap 1
      ∙ ap (λ (t : ℕ). t % cap)
          (let e : home cap key + s + 1 ≡ home cap key + (s + 1) = omega arith in e)

  pub slot-onto : (key i : ℕ) → i < cap → (s : ℕ) × (s < cap) × (slot cap key s ≡ i)
  slot-onto key i h =
      let h0 = home-lt key in
      elim (dec_lt i (home cap key)) [
        | yes below ↦
            let e : home cap key + (i + cap - home cap key) ≡ i + cap = omega arith in
            (
              i + cap - home cap key,
              omega arith,
              ap (λ (t : ℕ). t % cap) e ∙ add-mod_right i cap ∙ mod-eq_of_lt h,
            )
        | no above ↦
            let e : home cap key + (i - home cap key) ≡ i = omega arith in
            (i - home cap key, omega arith, ap (λ (t : ℕ). t % cap) e ∙ mod-eq_of_lt h)
      ]
