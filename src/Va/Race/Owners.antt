-- ===== src/Va/Race/Owners.antt =====
-- `try_claim` of src/va/bitmap.rs by two threads: which thread holds a claimed block.
use oxidalloc.Prelude.{
  ℕ, ◌<◌, ◌^◌, ◌≡◌, refl, ◌∙◌, subst, arith, Bool, true, false, bit_and, bit_or, ◌==◌, ==_iff, ◌&&◌,
  ◌||◌, inl, inr, Bool-cases,
}
use oxidalloc.Prelude.Word.{bit, bit-and, bit-or, bit-complement, bit_zero, clear_of_and}
use oxidalloc.Va.Race.{
  Shared, Threads, Pc, entered, claim_loaded, map_checked, claimed, published, returned, advance,
  Reaches, here, then_a, then_b, both_enter,
}

-- a thread holds block `k`
abbrev pub owns : (mask : ℕ) → Pc → ℕ → Bool
owns mask claimed k = bit mask k
owns mask published k = bit mask k
owns mask _ k = false

-- the claims, as a thread sees them that moves while `others` hold theirs
record Shares (mask : ℕ) (others : ℕ → Bool) (s : Shared) (pc : Pc) : Type 0 where
  owners : (k : ℕ) → k < 64 → bit (s.claim) k ≡ (owns mask pc k || others k)
  apart : (k : ℕ) → k < 64 → (owns mask pc k && others k) ≡ false
  checked :
      (claim_val k : ℕ) → pc ≡ map_checked claim_val → bit mask k ≡ true → bit claim_val k ≡ false

module _ (mask : ℕ) (narrow : mask < 2 ^ 64) (others : ℕ → Bool) where
  advance-Shares :
      (fails : Bool) (s : Shared) (pc : Pc)
      → Shares mask others s pc
      → let r = advance fails mask s pc in Shares mask others (r.0) (r.1)
  unfolding advance
  advance-Shares fails s entered now = record {
    owners = now.owners;
    apart = now.apart;
    checked = λ c k e h. cc;
  }
  advance-Shares fails s (claim_loaded v) now =
      elim (Bool-cases (bit_and (bit_or v (s.map)) mask == 0)) [
        | inl free ↦ rw free (record {
          owners = now.owners;
          apart = now.apart;
          checked = λ c k e h.
              let same : v ≡ c = cc in
              let clear = clear_of_and (bit_or v (s.map)) mask k ((==_iff _ _).0 free) h in
              subst (λ t. bit t k ≡ false) same (ground (arith, clear, bit-or v (s.map) k));
        })
        | inr busy ↦
            rw busy (record { owners = now.owners; apart = now.apart; checked = λ c k e h. cc })
      ]
  advance-Shares true s (map_checked v) now = record {
    owners = now.owners;
    apart = now.apart;
    checked = λ c k e h. cc;
  }
  advance-Shares false s (map_checked v) now = elim (Bool-cases (s.claim == v)) [
    | inl same ↦ rw same (record {
      owners = λ k h.
          let o : bit v k ≡ others k =
            subst (λ t. bit t k ≡ others k) ((==_iff _ _).0 same) (now.owners k h) in
          rw (bit-or, o) (ground arith);
      apart = λ k h.
          let o : bit v k ≡ others k =
            subst (λ t. bit t k ≡ others k) ((==_iff _ _).0 same) (now.owners k h) in
          ground (arith, o, now.checked v k refl);
      checked = λ c k e h. cc;
    })
    | inr moved ↦
        rw moved (record { owners = now.owners; apart = now.apart; checked = λ c k e h. cc })
  ]
  advance-Shares fails s claimed now = record {
    owners = now.owners;
    apart = now.apart;
    checked = λ c k e h. cc;
  }
  advance-Shares fails s published now = record {
    owners = λ k h.
        rw (bit-and, bit-complement mask k narrow h)
          (ground (arith, now.owners k h, now.apart k h));
    apart = λ k h. refl;
    checked = λ c k e h. cc;
  }
  advance-Shares fails s (returned b) now = now

-- both threads' views at once
record Owned (mask_a mask_b : ℕ) (t : Threads) : Type 0 where
  view_a : Shares mask_a (owns mask_b (t.pc_b)) (t.shared) (t.pc_a)
  checked_b :
      (claim_val k : ℕ)
      → t.pc_b ≡ map_checked claim_val
      → bit mask_b k ≡ true
      → bit claim_val k ≡ false

or_swap : (a b : Bool) → (a || b) ≡ (b || a)
or_swap true true = refl
or_swap true false = refl
or_swap false true = refl
or_swap false false = refl

and_swap : (a b : Bool) → (a && b) ≡ (b && a)
and_swap true true = refl
and_swap true false = refl
and_swap false true = refl
and_swap false false = refl

-- the same claims, seen by the other thread
swap_view :
    (mask_a mask_b : ℕ) (s : Shared) (a b : Pc)
    → Shares mask_a (owns mask_b b) s a
    → ((claim_val k : ℕ)
        → b ≡ map_checked claim_val
        → bit mask_b k ≡ true
        → bit claim_val k ≡ false)
    → Shares mask_b (owns mask_a a) s b
swap_view mask_a mask_b s a b view other = record {
  owners = λ k h. view.owners k h ∙ or_swap (owns mask_a a k) (owns mask_b b k);
  apart = λ k h. and_swap (owns mask_b b k) (owns mask_a a k) ∙ view.apart k h;
  checked = other;
}

module _ (mask_a mask_b : ℕ) (narrow_a : mask_a < 2 ^ 64) (narrow_b : mask_b < 2 ^ 64)
    (map : ℕ) where
  Reaches-Owned :
      (t : Threads)
      → Reaches mask_a mask_b (both_enter (record { map = map; claim = 0 })) t
      → Owned mask_a mask_b t
  Reaches-Owned t here = record {
    view_a = record { owners = λ k h. bit_zero k; apart = λ k h. refl; checked = λ c k e h. cc };
    checked_b = λ c k e h. cc;
  }
  Reaches-Owned t (then_a {u} fails r) =
      let now = Reaches-Owned u r in
      record {
        view_a =
            advance-Shares mask_a narrow_a (owns mask_b (u.pc_b)) fails (u.shared) (u.pc_a)
              (now.view_a);
        checked_b = now.checked_b;
      }
  Reaches-Owned t (then_b {u} fails r) =
      let now = Reaches-Owned u r in
      let view_b =
        swap_view mask_a mask_b (u.shared) (u.pc_a) (u.pc_b) (now.view_a) (now.checked_b) in
      let after =
        advance-Shares mask_b narrow_b (owns mask_a (u.pc_a)) fails (u.shared) (u.pc_b) view_b in
      let moved = advance fails mask_b (u.shared) (u.pc_b) in
      record {
        view_a = swap_view mask_b mask_a (moved.0) (moved.1) (u.pc_a) after (now.view_a.checked);
        checked_b = after.checked;
      }

  -- From a word without claims, in every interleaving of two threads: a block is claimed exactly when
  -- a thread is between its claim and its release, and never by both.
  pub Reaches-owns :
      (t : Threads)
      → Reaches mask_a mask_b (both_enter (record { map = map; claim = 0 })) t
      → (k : ℕ) → k < 64
      → (bit (t.shared.claim) k ≡ (owns mask_a (t.pc_a) k || owns mask_b (t.pc_b) k))
        × ((owns mask_a (t.pc_a) k && owns mask_b (t.pc_b) k) ≡ false)
  Reaches-owns t r k h =
      let now = Reaches-Owned t r in (now.view_a.owners k h, now.view_a.apart k h)
