-- ===== src/Tests/VaRadix.antt =====
-- A tree with one segment of 8 GiB, and a second one behind it.
use oxidalloc.Prelude.{◌≡◌, refl, arith, true, false, none, ◌==◌, if◌then◌else◌}
use oxidalloc.Va.Radix.{Radix, get, check_collision, collides_from, set_range, store}
use oxidalloc.Va.Radix.Ranges.{Collides, check_collision-Collides, Registers, set_range-Registers}

-- chunks 5 and 6 are of segment 1
abbrev one_segment : Radix
one_segment =
    store (store (record { l1 = λ i. none }) 0 (λ j. 0) 5 1) 0 (λ j. if j == 5 then 1 else 0) 6 1

second_free : check_collision one_segment 0x700000000 0x200000000 ≡ false
unfolding check_collision collides_from get
second_free = refl

second_taken : check_collision one_segment 0x600000000 0x200000000 ≡ true
unfolding check_collision collides_from get
second_taken = refl

check_collision-Collides_example :
    Collides one_segment 0x600000000 0x200000000
      (check_collision one_segment 0x600000000 0x200000000)
check_collision-Collides_example = check_collision-Collides one_segment 0x600000000 0x200000000

set_range-Registers_example :
    Registers
      (λ size. true)
      one_segment
      0x700000000
      0x200000000
      2
      (set_range (λ size. true) 0x700000000 0x200000000 2 one_segment)
set_range-Registers_example =
    set_range-Registers (λ size. true) one_segment 0x700000000 0x200000000 2 (omega arith)
      (omega arith) (omega arith) second_free
