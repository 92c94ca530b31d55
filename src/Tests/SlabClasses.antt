-- ===== src/Tests/SlabClasses.antt =====
-- The size classes at concrete sizes: 100 bytes are served by the table, 5000 by the slow path, and
-- 0 and 3 MiB by none.
use oxidalloc.Prelude.{◌*◌, ◌⊎◌, ◌≤◌, ◌≡◌, refl, arith, some}
use oxidalloc.Outcome.{ok}
use oxidalloc.Slab.Classes.{
  size_class, size_lut, slow_path_from, match_size_class, block_size_of, tls_max_blocks,
  class_budget, position_from, get_size_4096_class,
}
use oxidalloc.Slab.Classes.Fit.{Matches, match_size_class-Matches}
use oxidalloc.Slab.Classes.Budget.{tls_max_blocks-budget}

hundred : match_size_class 100 ≡ some 6
unfolding match_size_class size_lut
hundred = refl

five_thousand : match_size_class 5000 ≡ some 23
unfolding match_size_class slow_path_from
five_thousand = refl

page_class : get_size_4096_class ≡ ok 22
unfolding get_size_4096_class position_from
page_class = refl

match_size_class-Matches_example : Matches 5000 (match_size_class 5000)
match_size_class-Matches_example = match_size_class-Matches 5000

tls_max_blocks-budget_example :
    (1 ≤ tls_max_blocks 7)
    × ((tls_max_blocks 7 ≡ 1) ⊎ (tls_max_blocks 7 * block_size_of 7 ≤ class_budget (size_class 7)))
tls_max_blocks-budget_example = tls_max_blocks-budget 7 (omega arith)
