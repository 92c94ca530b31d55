-- ===== src/Abi/Calloc/Zeroes.antt =====
-- `calloc` of src/abi/calloc.rs: the bytes that it clears, and its refusals.
use oxidalloc.Prelude.{
  ℕ, ◌+◌, ◌*◌, ◌^◌, ◌≤◌, ◌<◌, ◌≡◌, refl, arith, max, min, true, false, ◌⊎◌, inl, inr, Option, none,
  some, ltb, ◌==◌, ltb→lt, Bool-cases, Option-cases, if◌then◌else◌,
}
use oxidalloc.Outcome.{Returns}
use oxidalloc.Abi.Calloc.{
  Bytes, write_zeros, Result, null, isize_max, calc_and_get, actual_size, zero_out, calloc,
}

module _ (malloc : (size : ℕ) → Option ℕ) (class_at : (header : ℕ) → ℕ)
    (big_size : (header : ℕ) → Option ℕ) (nmemb size : ℕ) (b : Bytes) where
  -- What `calloc` does: the bytes of the product are zero and no byte behind the allocation's is
  -- changed; or it gives null, with `errno` set exactly where the sizes are too large.
  pub data Clears : Result × Bytes → Type 0 where
    cleared :
        {r : Result} {b' : Bytes} (ptr : ℕ)
        → malloc (max 1 (nmemb * size)) ≡ some ptr
        → r ≡ record { ptr = some ptr; nomem = false }
        → ((p : ℕ) → ptr ≤ p → p < ptr + nmemb * size → b' p ≡ 0)
        → ((p : ℕ) → (p < ptr) ⊎ (ptr + max 1 (nmemb * size) ≤ p) → b' p ≡ b p)
        → Clears (r, b')
    too_large : (isize_max < size) ⊎ (2 ^ 64 ≤ nmemb * size) → Clears (null true, b)
    no_memory : malloc (max 1 (nmemb * size)) ≡ none → Clears (null false, b)

  module _
      (sized : (bytes ptr : ℕ)
        → malloc bytes ≡ some ptr
        → Returns (actual_size class_at big_size ptr) (λ actual. bytes ≤ actual)) where
    abbrev effective : ℕ
    effective = max 1 (nmemb * size)

    given-Clears :
        (ptr : ℕ)
        → malloc effective ≡ some ptr
        → Returns (zero_out malloc class_at big_size b (some (ptr, effective), false)) Clears
    given-Clears ptr given =
        let (actual, run, enough) = sized effective ptr given in
        (
          (record { ptr = some ptr; nomem = false }, write_zeros b ptr (min actual effective)),
          rw run refl,
          cleared ptr given refl (λ p lo hi. ground arith) (λ p out. ground arith),
        )

    -- For a `malloc` whose allocations have the bytes that it was asked for, `calloc` clears the
    -- product of its sizes and nothing behind, or gives null with `errno` set where a size or the
    -- product is too large, or null where `malloc` does; it does not abort.
    pub calloc-Clears : Returns (calloc malloc class_at big_size nmemb size b) Clears
    unfolding calloc calc_and_get
    calloc-Clears = elim (Bool-cases (ltb isize_max size)) [
      | inl large ↦ ((null true, b), rw large refl, too_large (inl (ltb→lt _ _ large)))
      | inr small ↦ elim (Bool-cases (ltb (nmemb * size) (2 ^ 64))) [
        | inr over ↦ ((null true, b), rw (small, over) refl, too_large (inr (ground arith)))
        | inl fit ↦
            let e : (if nmemb * size == 0 then 1 else nmemb * size) ≡ max 1 (nmemb * size) =
              ground arith in
            elim (Option-cases (malloc effective)) [
              | inl refused ↦ ((null false, b), rw (small, fit, e, refused) refl, no_memory refused)
              | inr (ptr, given) ↦
                  let (r, run, clears) = given-Clears ptr given in
                  (r, rw (small, fit, e, given) run, clears)
            ]
      ]
    ]
