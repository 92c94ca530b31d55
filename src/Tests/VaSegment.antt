-- ===== src/Tests/VaSegment.antt =====
-- A segment of 100 blocks from 0x100000 on: the first word of its map is full, and blocks 64 and 66
-- are in use.
use oxidalloc.Prelude.{arith, false, none, ◌==◌, if◌then◌else◌}
use oxidalloc.Prelude.Word.{bit_zero, u64_max}
use oxidalloc.Outcome.{Returns}
use oxidalloc.Va.Words.{Words}
use oxidalloc.Va.Segment.Defs.{Segment, try_claim, free, realloc_inplace}
use oxidalloc.Va.Segment.View.{IsValid}
use oxidalloc.Va.Segment.Claim.{Claims, try_claim-Claims, Allocates}
use oxidalloc.Va.Segment.Release.{Frees, free-Frees}
use oxidalloc.Va.Segment.Resize.{Resizes, realloc_inplace-Resizes}
use oxidalloc.Va.Segment.Single.{alloc_single}
use oxidalloc.Va.Segment.Single.Search.{alloc_single-Allocates}
use oxidalloc.Va.Segment.Multi.{alloc_multi}
use oxidalloc.Va.Segment.Multi.Search.{alloc_multi-Allocates}

abbrev sample_map : Words
sample_map i = if i == 0 then u64_max else if i == 1 then 5 else 0

abbrev sample : Segment
sample = record {
  next = none;
  va_start = 0x100000;
  va_end = 0x164000;
  map = sample_map;
  claim = λ _. 0;
  hint = 0;
  map_len = 2;
  full = false;
  failed_trys = 0;
}

sample-IsValid : IsValid sample
sample-IsValid = record {
  map_words = λ i. ground arith;
  claim_words = λ i. omega arith;
  quiet = λ i. bit_zero _;
  covered = omega arith;
  ordered = omega arith;
  bounded = omega arith;
  hinted = omega arith;
}

try_claim-Claims_example : Returns (try_claim sample 67 30) (Claims sample 67 30)
try_claim-Claims_example = try_claim-Claims sample sample-IsValid 67 30 (omega arith)

alloc_single-Allocates_example : Returns (alloc_single 70000 sample) (Allocates sample 1)
alloc_single-Allocates_example = alloc_single-Allocates sample sample-IsValid 70000

alloc_multi-Allocates_example : Returns (alloc_multi 90 3 sample) (Allocates sample 3)
alloc_multi-Allocates_example = alloc_multi-Allocates sample sample-IsValid 3 (omega arith) 90

free-Frees_example : Returns (free sample 0x140000 8192) (Frees sample 0x140000 8192)
free-Frees_example =
    free-Frees sample sample-IsValid 0x140000 8192 (omega arith) (omega arith) (omega arith)

realloc_inplace-Resizes_example :
    Returns (realloc_inplace sample 0x142000 4096 12288) (Resizes sample 66 1 3)
realloc_inplace-Resizes_example =
    realloc_inplace-Resizes sample sample-IsValid 0x142000 4096 12288 (omega arith) (omega arith)
      (omega arith) (omega arith)
