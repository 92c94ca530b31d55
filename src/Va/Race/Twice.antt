-- ===== src/Va/Race/Twice.antt =====
-- `try_claim` of src/va/bitmap.rs by two threads: a claim between the other's load of the map and its
-- exchange of the claims.
use oxidalloc.Prelude.{
  ℕ, ◌<◌, ◌^◌, ◌≡◌, refl, subst, ap, arith, true, false, bit_and, bit_or, ==_iff,
}
use oxidalloc.Prelude.Word.{
  complement, complement-lt, bit-and, bit-or, bit-complement, bit_and-lt, bit_or-lt, bit_ext,
  clear_of_and,
}
use oxidalloc.Va.Race.{
  Shared, Threads, Pc, entered, claim_loaded, map_checked, claimed, published, returned, advance,
  step_a, step_b, Reaches, here, then_a, then_b, both_enter,
}

-- a release gives back the claims as they were
release_lem :
    (claim map mask : ℕ)
    → claim < 2 ^ 64
    → mask < 2 ^ 64
    → bit_and (bit_or claim map) mask ≡ 0
    → bit_and (bit_or claim mask) (complement mask) ≡ claim
release_lem claim map mask small narrow free =
    bit_ext 64 _ _ (bit_and-lt 64 _ _ (bit_or-lt 64 claim mask small narrow) (complement-lt mask))
      small
      (λ k h.
        rw (bit-and, bit-or, bit-complement mask k narrow h)
          (ground (arith, clear_of_and (bit_or claim map) mask k free, bit-or claim map k)))

abbrev pub at_point : (map claim : ℕ) (pc_a pc_b : Pc) → Threads
at_point map claim a b = record { shared = record { map = map; claim = claim }; pc_a = a; pc_b = b }

abbrev a_moves : Pc → Shared × Pc → Threads
a_moves b r = record { shared = r.0; pc_a = r.1; pc_b = b }

abbrev b_moves : Pc → Shared × Pc → Threads
b_moves a r = record { shared = r.0; pc_a = a; pc_b = r.1 }

module _ (mask : ℕ) (t : Threads) where
  go_a :
      {u v : Threads} → Reaches mask mask t u → step_a mask mask false u ≡ v → Reaches mask mask t v
  go_a r e = subst (λ v. Reaches mask mask t v) e (then_a false r)

  go_b :
      {u v : Threads} → Reaches mask mask t u → step_b mask mask false u ≡ v → Reaches mask mask t v
  go_b r e = subst (λ v. Reaches mask mask t v) e (then_b false r)

module _ (mask map claim : ℕ) where
  module _ (free : bit_and (bit_or claim map) mask ≡ 0) where
    checks :
        advance false mask (record { map = map; claim = claim }) (claim_loaded claim)
        ≡ (record { map = map; claim = claim }, map_checked claim)
    unfolding advance
    checks = rw free refl

  swaps :
      advance false mask (record { map = map; claim = claim }) (map_checked claim)
      ≡ (record { map = map; claim = bit_or claim mask }, claimed)
  unfolding advance
  swaps = let same = (==_iff claim claim).1 refl in rw same refl

  publishes :
      advance false mask (record { map = map; claim = claim }) claimed
      ≡ (record { map = bit_or map mask; claim = claim }, published)
  unfolding advance
  publishes = refl

  enters :
      advance false mask (record { map = map; claim = claim }) entered
      ≡ (record { map = map; claim = claim }, claim_loaded claim)
  unfolding advance
  enters = refl

  releases :
      (before : ℕ)
      → bit_and before (complement mask) ≡ claim
      → advance false mask (record { map = map; claim = before }) published
        ≡ (record { map = map; claim = claim }, returned true)
  unfolding advance
  releases before e = rw e refl

-- Whenever a run of blocks in a word is free and unclaimed, there is an interleaving of two threads
-- in which `try_claim` of that run returns true to both.
pub Reaches-returned :
    (map claim mask : ℕ)
    → claim < 2 ^ 64
    → mask < 2 ^ 64
    → bit_and (bit_or claim map) mask ≡ 0
    → Reaches mask mask
        (both_enter (record { map = map; claim = claim }))
        (at_point (bit_or (bit_or map mask) mask) claim (returned true) (returned true))
Reaches-returned map claim mask small narrow free =
    let t = both_enter (record { map = map; claim = claim }) in
    let back = release_lem claim map mask small narrow free in
    let map1 = bit_or map mask in
    let held = bit_or claim mask in
    let b_ready : Reaches mask mask t (at_point map claim entered (map_checked claim)) =
      go_b mask t
        (go_b mask t {v = at_point map claim entered (claim_loaded claim)} here
          (ap (b_moves entered) (enters mask map claim)))
        (ap (b_moves entered) (checks mask map claim free)) in
    let a_ready : Reaches mask mask t (at_point map claim (map_checked claim) (map_checked claim)) =
      go_a mask t
        (go_a mask t {v = at_point map claim (claim_loaded claim) (map_checked claim)} b_ready
          (ap (a_moves (map_checked claim)) (enters mask map claim)))
        (ap (a_moves (map_checked claim)) (checks mask map claim free)) in
    let a_holds : Reaches mask mask t (at_point map1 held published (map_checked claim)) =
      go_a mask t
        (go_a mask t {v = at_point map held claimed (map_checked claim)} a_ready
          (ap (a_moves (map_checked claim)) (swaps mask map claim)))
        (ap (a_moves (map_checked claim)) (publishes mask map held)) in
    let a_done : Reaches mask mask t (at_point map1 claim (returned true) (map_checked claim)) =
      go_a mask t a_holds (ap (a_moves (map_checked claim)) (releases mask map1 claim held back)) in
    let b_holds : Reaches mask mask t (at_point (bit_or map1 mask) held (returned true) published) =
      go_b mask t
        (go_b mask t {v = at_point map1 held (returned true) claimed} a_done
          (ap (b_moves (returned true)) (swaps mask map1 claim)))
        (ap (b_moves (returned true)) (publishes mask map1 held)) in
    go_b mask t b_holds
      (ap (b_moves (returned true)) (releases mask (bit_or map1 mask) claim held back))
