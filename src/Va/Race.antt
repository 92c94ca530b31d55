-- ===== src/Va/Race.antt =====
-- src/va/bitmap.rs: `Segment::try_claim` of one run of blocks inside one word, run by two threads at
-- once. A step is one atomic access; the accesses of each thread come in its program's order.
pub mod Owners
pub mod Twice
use oxidalloc.Prelude.{ℕ, Bool, true, false, bit_and, bit_or, ◌==◌, if◌then◌else◌}
use oxidalloc.Prelude.Word.{complement}

-- the word of the map and the word of the claims
pub record Shared : Type 0 where
  pub map : ℕ
  pub claim : ℕ

-- where a thread stands
pub data Pc : Type 0 where
  entered : Pc
  claim_loaded : (claim_val : ℕ) → Pc
  map_checked : (claim_val : ℕ) → Pc
  claimed : Pc
  published : Pc
  returned : Bool → Pc

-- one access of a thread that claims `mask`; `fails` lets `compare_exchange_weak` fail on equal words
unfoldable pub advance : (fails : Bool) (mask : ℕ) → Shared → Pc → Shared × Pc
advance fails mask s entered = (s, claim_loaded (s.claim))
advance fails mask s (claim_loaded claim_val) =
    if bit_and (bit_or claim_val (s.map)) mask == 0
    then (s, map_checked claim_val)
    else (s, returned false)
advance true mask s (map_checked claim_val) = (s, claim_loaded (s.claim))
advance false mask s (map_checked claim_val) =
    if s.claim == claim_val
    then (record s { claim = bit_or claim_val mask }, claimed)
    else (s, claim_loaded (s.claim))
advance fails mask s claimed = (record s { map = bit_or (s.map) mask }, published)
advance fails mask s published =
    (record s { claim = bit_and (s.claim) (complement mask) }, returned true)
advance fails mask s (returned b) = (s, returned b)

pub record Threads : Type 0 where
  pub shared : Shared
  pub pc_a : Pc
  pub pc_b : Pc

module _ (mask_a mask_b : ℕ) where
  abbrev pub step_a : Bool → Threads → Threads
  step_a fails t =
      let r = advance fails mask_a (t.shared) (t.pc_a) in record t { shared = r.0; pc_a = r.1 }

  abbrev pub step_b : Bool → Threads → Threads
  step_b fails t =
      let r = advance fails mask_b (t.shared) (t.pc_b) in record t { shared = r.0; pc_b = r.1 }

  -- the interleavings
  pub data Reaches (t : Threads) : Threads → Type 0 where
    here : Reaches t t
    then_a : {u : Threads} (fails : Bool) → Reaches t u → Reaches t (step_a fails u)
    then_b : {u : Threads} (fails : Bool) → Reaches t u → Reaches t (step_b fails u)

-- both threads call `try_claim`
abbrev pub both_enter : Shared → Threads
both_enter s = record { shared = s; pc_a = entered; pc_b = entered }
