-- ===== src/Slab/Classes.antt =====
-- src/slab/mod.rs: the size classes, the tables made from them, and `match_size_class`; with
-- `HEADER_SIZE` of src/lib.rs for the default build, where `OxHeader` has 16 bytes.
pub mod Fit
pub mod Budget
use oxidalloc.Prelude.{
  ℕ, zero, suc, ◌+◌, ◌-◌, ◌*◌, ◌/◌, ◌%◌, ◌^◌, Bool, true, false, ◌&&◌, ◌||◌, Option, none, some,
  List, [], ◌∷◌, length, get_or, ltb, leb, ◌==◌, if◌then◌else◌,
}
use oxidalloc.Prelude.Word.{◌>>>◌}
use oxidalloc.Outcome.{Outcome, ok, panic, out_of_fuel, ◌>>=◌}
use oxidalloc.Va.Align.{align_to}

abbrev pub header_size : ℕ
header_size = 16

abbrev pub num_size_classes : ℕ
num_size_classes = 34

abbrev pub size_classes : List ℕ
size_classes =
    16 ∷ 32 ∷ 48 ∷ 64 ∷ 80 ∷ 96 ∷ 128 ∷ 160 ∷ 192 ∷ 256 ∷ 320 ∷ 384 ∷ 512 ∷ 768 ∷ 1024 ∷ 1280 ∷ 1536
    ∷ 1792 ∷ 2048 ∷ 2560 ∷ 3072 ∷ 3840 ∷ 4096 ∷ 8192 ∷ 12288 ∷ 16384 ∷ 24576 ∷ 32768 ∷ 65536
    ∷ 131072 ∷ 262144 ∷ 524288 ∷ 1048576 ∷ 2097152 ∷ []

abbrev pub iterations : List ℕ
iterations =
    409 ∷ 341 ∷ 292 ∷ 255 ∷ 227 ∷ 153 ∷ 170 ∷ 36 ∷ 31 ∷ 25 ∷ 21 ∷ 18 ∷ 14 ∷ 9 ∷ 7 ∷ 6 ∷ 2 ∷ 4 ∷ 3
    ∷ 1 ∷ 2 ∷ 1 ∷ 1 ∷ 1 ∷ 1 ∷ 1 ∷ 1 ∷ 1 ∷ 1 ∷ 1 ∷ 1 ∷ 1 ∷ 1 ∷ 1 ∷ []

-- `SIZE_CLASSES[class]`; 0 stands for the panic past the end, which no caller below reaches
abbrev pub size_class : ℕ → ℕ
size_class class = get_or size_classes class 0

-- `while class < 34 && SIZE_CLASSES[class] < size { class += 1; }`, with `left` classes to go
unfoldable pub class_from : (left class size : ℕ) → ℕ
class_from zero class size = class
class_from (suc left) class size =
    let rest = class_from left (class + 1) size in
    if ltb (size_class class) size then rest else class

-- `SIZE_LUT`, built entry by entry
unfoldable pub lut_from : (left i : ℕ) → List ℕ
lut_from zero i = []
lut_from (suc left) i = class_from num_size_classes 0 ((i + 1) * 16) % 256 ∷ lut_from left (i + 1)

unfoldable pub size_lut : List ℕ
unfolding lut_from class_from
size_lut = lut_from 256 0

-- `slow_path_match`, with `left` classes to go
unfoldable pub slow_path_from : (left class size : ℕ) → Option ℕ
slow_path_from zero class size = none
slow_path_from (suc left) class size =
    let rest = slow_path_from left (class + 1) size in
    if leb size (size_class class) then some class else rest

unfoldable pub match_size_class : ℕ → Option ℕ
match_size_class size =
    if size == 0 || ltb 2097152 size
    then none
    else if leb size 4096 && ltb 0 size
    then some (get_or size_lut ((size - 1) >>> 4) 0)
    else slow_path_from num_size_classes 0 size

-- the bytes of a block: `align_to(payload + HEADER_SIZE, 16)`
unfoldable pub block_size_of : ℕ → ℕ
unfolding align_to
block_size_of class = align_to (size_class class + header_size) 16

-- an entry of `TLS_MAX_BLOCKS`
abbrev pub class_budget : ℕ → ℕ
class_budget payload =
    if ltb payload 256
    then 1024 * 128
    else (if ltb payload (1024 * 16) then 1024 * 96 else 1024 * 64)

unfoldable pub tls_max_blocks : ℕ → ℕ
unfolding block_size_of
tls_max_blocks class =
    let block_size = block_size_of class in
    let blocks =
      if ltb (1024 * 1024 * 16) block_size
      then 0
      else class_budget (size_class class) / block_size in
    if blocks == 0 then 1 else blocks

-- `SIZE_CLASSES.iter().position(|&s| s >= 4096).unwrap()`
unfoldable pub position_from : (left class bound : ℕ) → Option ℕ
position_from zero class bound = none
position_from (suc left) class bound =
    let rest = position_from left (class + 1) bound in
    if leb bound (size_class class) then some class else rest

unfoldable pub get_size_4096_class : Outcome ℕ
unfolding position_from
get_size_4096_class = elim (position_from num_size_classes 0 4096) [
  | some class ↦ ok class
  | none ↦ panic
]
