-- ===== src/Trim.antt =====
-- src/trim/mod.rs: `TimeDecay`, how eagerly memory is given back.
pub mod Order
use oxidalloc.Prelude.{ℕ, ◌*◌, Bool, true, false, ◌&&◌, leb, ◌==◌, if◌then◌else◌}

pub data TimeDecay : Type 0 where
  normal : TimeDecay
  medium : TimeDecay
  high : TimeDecay
  aggressive : TimeDecay

unfoldable pub decide_on : ℕ → TimeDecay
decide_on avg_time =
    if leb avg_time 1
    then normal
    else if leb 4 avg_time && leb avg_time 5
    then medium
    else if leb 6 avg_time && leb avg_time 10
    then high
    else aggressive

abbrev pub get_trim_time : TimeDecay → ℕ
get_trim_time normal = 150
get_trim_time medium = 120
get_trim_time high = 100
get_trim_time aggressive = 20

abbrev pub get_trim_time_for_global : TimeDecay → ℕ
get_trim_time_for_global normal = 2
get_trim_time_for_global medium = 1
get_trim_time_for_global high = 1
get_trim_time_for_global aggressive = 1

abbrev pub get_threshold : TimeDecay → ℕ
get_threshold normal = 32 * 1024 * 1024
get_threshold medium = 64 * 1024 * 1024
get_threshold high = 128 * 1024 * 1024
get_threshold aggressive = 512 * 1024 * 1024

abbrev pub from_u8 : ℕ → TimeDecay
from_u8 value =
    if value == 0
    then normal
    else if value == 1
    then medium
    else if value == 2
    then high
    else aggressive
