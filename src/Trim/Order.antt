-- ===== src/Trim/Order.antt =====
-- `TimeDecay::decide_on` of src/trim/mod.rs: the decays of two average ages, compared.
use oxidalloc.Prelude.{ℕ, ◌≤◌, ◌<◌, ◌⊎◌, arith}
use oxidalloc.Trim.{decide_on, get_trim_time, get_trim_time_for_global, get_threshold}

-- An older average waits no longer for a trim and allows no less memory, from 4 on and up to 1.
pub decide_on_order :
    (a b : ℕ)
    → a ≤ b
    → (a ≤ 1) ⊎ (4 ≤ a)
    → (get_trim_time (decide_on b) ≤ get_trim_time (decide_on a))
      × (get_trim_time_for_global (decide_on b) ≤ get_trim_time_for_global (decide_on a))
      × (get_threshold (decide_on a) ≤ get_threshold (decide_on b))
unfolding decide_on
decide_on_order a b h side = (ground (arith), ground (arith), ground (arith))

-- The ages 2 and 3 are trimmed sooner than every age from 4 to 10.
pub decide_on_gap :
    (a b : ℕ)
    → 2 ≤ a
    → a ≤ 3
    → 4 ≤ b
    → b ≤ 10
    → get_trim_time (decide_on a) < get_trim_time (decide_on b)
unfolding decide_on
decide_on_gap a b p q r s = ground arith
