-- ===== src/Tests/VaRace.antt =====
-- Two threads that claim two blocks of a word in which another block is in use.
use oxidalloc.Prelude.{◌≡◌, refl, arith, true, false, bit_or, ◌&&◌, ◌||◌}
use oxidalloc.Prelude.Word.{bit}
use oxidalloc.Va.Race.{Threads, Reaches, here, then_a, then_b, both_enter, step_a, step_b, returned}
use oxidalloc.Va.Race.Owners.{owns, Reaches-owns}
use oxidalloc.Va.Race.Twice.{at_point, Reaches-returned}

Reaches-returned_example :
    Reaches 6 6
      (both_enter (record { map = 1; claim = 0 }))
      (at_point (bit_or (bit_or 1 6) 6) 0 (returned true) (returned true))
Reaches-returned_example = Reaches-returned 1 0 6 (omega arith) (omega arith) refl

-- the first thread has claimed blocks 1 and 2, and the second has entered for block 3
abbrev both : Threads
both = both_enter (record { map = 1; claim = 0 })

abbrev claiming : Threads
claiming = step_b 6 8 false (step_a 6 8 false (step_a 6 8 false (step_a 6 8 false both)))

claiming_reached : Reaches 6 8 both claiming
claiming_reached = then_b false (then_a false (then_a false (then_a false here)))

Reaches-owns_example :
    (bit (claiming.shared.claim) 2 ≡ (owns 6 (claiming.pc_a) 2 || owns 8 (claiming.pc_b) 2))
    × ((owns 6 (claiming.pc_a) 2 && owns 8 (claiming.pc_b) 2) ≡ false)
Reaches-owns_example =
    Reaches-owns 6 8 (omega arith) (omega arith) 1 claiming claiming_reached 2 (omega arith)
