-- ===== src/Tests/Trim.antt =====
-- The decay at the ages 4, 7 and 3.
use oxidalloc.Prelude.{◌≤◌, ◌<◌, inr, arith}
use oxidalloc.Trim.{decide_on, get_trim_time, get_trim_time_for_global, get_threshold}
use oxidalloc.Trim.Order.{decide_on_order, decide_on_gap}

decide_on_order_example :
    (get_trim_time (decide_on 7) ≤ get_trim_time (decide_on 4))
    × (get_trim_time_for_global (decide_on 7) ≤ get_trim_time_for_global (decide_on 4))
    × (get_threshold (decide_on 4) ≤ get_threshold (decide_on 7))
decide_on_order_example = decide_on_order 4 7 (omega arith) (inr (omega arith))

decide_on_gap_example : get_trim_time (decide_on 3) < get_trim_time (decide_on 7)
decide_on_gap_example = decide_on_gap 3 7 (omega arith) (omega arith) (omega arith) (omega arith)
